-- ===== src/TeaOfTheDayCache/Tests.antt =====
-- Instances of the theorem on the cache, and test runs.
use tea_elephant_memory.Prelude.{
  ℕ, ◌*◌, ◌+◌, ◌-◌, ◌/◌, ℤ, negsuc, ◌≡◌, refl, none, some, List, [], ◌∷◌, pos, arith, ◌+ℤ◌,
}
use tea_elephant_memory.Clock.{Time}
use tea_elephant_memory.TeaOfTheDayCache.{
  Location, IsCalendar, new_tea_of_the_day_cache, get, evict, set_entry, next_midnight,
}
use tea_elephant_memory.TeaOfTheDayCache.Answers.{Step, stores, evicts, run, last_stored, get-run}

-- A day in nanoseconds.
abbrev day_length : ℕ
day_length = 86_400_000_000_000

abbrev utc_day : Time → ℤ
utc_day (pos n) = pos (n / day_length)
utc_day (negsuc n) = negsuc (n / day_length)

abbrev utc_midnight : ℤ → Time
utc_midnight (pos d) = pos (d * day_length)
utc_midnight (negsuc d) = negsuc (d * day_length + (day_length - 1))

-- The days of UTC, counted from the epoch.
abbrev utc : Location
utc = record { day = utc_day; midnight = utc_midnight }

utc-IsCalendar : IsCalendar utc
utc-IsCalendar (pos n) (pos d) = ground arith
utc-IsCalendar (pos n) (negsuc d) = ground arith
utc-IsCalendar (negsuc n) (pos d) = ground arith
utc-IsCalendar (negsuc n) (negsuc d) = ground arith

-- An eviction by a Get of another time comes after a new value.
abbrev steps : List (Step ℕ)
steps = stores 5 71 (pos 10) ∷ evicts 5 (pos 20) ∷ stores 6 72 (pos 30) ∷ stores 5 73 (pos 40) ∷ []

get-run_example :
    get 5 (pos 50) (run utc steps new_tea_of_the_day_cache) ≡ last_stored utc 5 (pos 50) steps none
get-run_example = get-run utc 5 (pos 50) steps utc-IsCalendar (omega arith, tt)

get_test : get 5 (pos 50) (run utc steps new_tea_of_the_day_cache) ≡ some 73
unfolding get run set_entry evict next_midnight ◌+ℤ◌ new_tea_of_the_day_cache
get_test = refl

expired_test : get 5 (pos day_length) (run utc steps new_tea_of_the_day_cache) ≡ none
unfolding get run set_entry evict next_midnight ◌+ℤ◌ new_tea_of_the_day_cache
expired_test = refl
