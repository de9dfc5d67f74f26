-- ===== src/Clock.antt =====
-- Go's time package as the program uses it: an instant is its signed distance in nanoseconds from
-- the Unix epoch (the wall-clock location is not part of it), a duration a signed 64-bit number.
use tea_elephant_memory.Prelude.{ℕ, ◌*◌, Bool, ℤ, pos, negsuc, ◌-ℤ◌, ltb_ℤ, eqb_ℤ, if◌then◌else◌}

abbrev pub Time : Type 0
Time = ℤ

abbrev pub Duration : Type 0
Duration = ℤ

-- January 1, year 1, 00:00:00 UTC, the zero value of time.Time.
abbrev pub zero_time : Time
zero_time = negsuc 62_135_596_799_999_999_999

abbrev pub is_zero : Time → Bool
is_zero t = eqb_ℤ t zero_time

abbrev pub before : Time → Time → Bool
before t u = ltb_ℤ t u

abbrev pub after : Time → Time → Bool
after t u = ltb_ℤ u t

abbrev pub max_duration : Duration
max_duration = pos 9_223_372_036_854_775_807

abbrev pub min_duration : Duration
min_duration = negsuc 9_223_372_036_854_775_807

-- t.Sub(u) saturates at the ends of the 64-bit range.
unfoldable pub time_sub : Time → Time → Duration
time_sub t u =
    let d = t -ℤ u in
    if ltb_ℤ max_duration d then max_duration else if ltb_ℤ d min_duration then min_duration else d

abbrev pub hours : ℕ → Duration
hours n = pos (n * 3_600_000_000_000)
