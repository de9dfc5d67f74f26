-- ===== src/Keys/Consumptions.antt =====
-- Consumption keys: reading back, the order of a scan, and the keys of other users.
use tea_elephant_memory.Prelude.{
  ℕ, ◌<◌, ◌≤◌, ◌≡◌, ◌≢◌, refl, ap, sym, subst, ◌∙◌, false, ltb, ◌==◌, ◌&&◌, ◌||◌, none, some, [],
  ◌++◌, length, length-append, take, drop, take-append, drop-append, append_assoc, append-nil,
  arith, pos, negsuc, Bytes, bytes_eq, bytes_eq_refl, bytes_lt, bytes_lt_irrefl, if◌then◌else◌,
}
use tea_elephant_memory.Clock.{Time}
use tea_elephant_memory.Keys.{
  big_endian, uuid_bytes, consumption_by_user_id, consumption_key, unix_nano, max_int64,
  parse_consumption_key,
}
use tea_elephant_memory.Keys.BigEndian.{
  bound, big_endian-length, number_from-big_endian, bytes_eq-big_endian, bytes_lt-big_endian,
  bytes_lt-append,
}

take_exact : (n : ℕ) (xs ys : Bytes) → length xs ≡ n → take n (xs ++ ys) ≡ xs
take_exact n xs ys h = subst (λ m. take m (xs ++ ys) ≡ xs) h (take-append xs ys)

drop_exact : (n : ℕ) (xs ys : Bytes) → length xs ≡ n → drop n (xs ++ ys) ≡ ys
drop_exact n xs ys h = subst (λ m. drop m (xs ++ ys) ≡ ys) h (drop-append xs ys)

-- What a timestamp becomes: one before the epoch reads as the end of the 64-bit range.
abbrev pub read_time : Time → Time
read_time (pos n) = pos n
read_time (negsuc n) = pos max_int64

-- The nanoseconds since the epoch fit in a signed 64-bit number.
abbrev pub FitsInt64 : Time → Type 0
FitsInt64 (pos n) = n ≤ max_int64
FitsInt64 (negsuc n) = n ≤ max_int64

unix_nano-bound : (ts : Time) → FitsInt64 ts → unix_nano ts < bound 8
unfolding unix_nano
unix_nano-bound (pos n) h = omega arith
unix_nano-bound (negsuc n) h = omega arith

unix_nano_pos : (n : ℕ) → n ≤ max_int64 → unix_nano (pos n) ≡ n
unfolding unix_nano
unix_nano_pos n h = omega arith

read_time_lem :
    (ts : Time)
    → FitsInt64 ts
    → pos (if ltb max_int64 (unix_nano ts) then max_int64 else unix_nano ts) ≡ read_time ts
unfolding unix_nano
read_time_lem (pos n) h = ap pos (ground arith)
read_time_lem (negsuc n) h = ap pos (ground arith)

by_user-length : (user_id : ℕ) → length (consumption_by_user_id user_id) ≡ 18
unfolding consumption_by_user_id uuid_bytes
by_user-length user_id = omega (arith, big_endian-length 16 user_id)

key-length :
    (user_id : ℕ) (ts : Time) (tea_id : ℕ) → length (consumption_key user_id ts tea_id) ≡ 42
unfolding consumption_key uuid_bytes
key-length user_id ts tea_id = omega (
  arith,
  length-append (consumption_by_user_id user_id)
      (big_endian 8 (unix_nano ts) ++ big_endian 16 tea_id),
  length-append (big_endian 8 (unix_nano ts)) (big_endian 16 tea_id),
  by_user-length user_id,
  big_endian-length 8 (unix_nano ts),
  big_endian-length 16 tea_id,
)

prefix_field :
    (user_id : ℕ) (ts : Time) (tea_id : ℕ)
    → take 18 (consumption_key user_id ts tea_id) ≡ consumption_by_user_id user_id
unfolding consumption_key
prefix_field user_id ts tea_id =
    take_exact 18 (consumption_by_user_id user_id) _ (by_user-length user_id)

time_field :
    (user_id : ℕ) (ts : Time) (tea_id : ℕ)
    → take 8 (drop 18 (consumption_key user_id ts tea_id)) ≡ big_endian 8 (unix_nano ts)
unfolding consumption_key
time_field user_id ts tea_id =
    ap (take 8) (drop_exact 18 (consumption_by_user_id user_id) _ (by_user-length user_id))
    ∙ take_exact 8 (big_endian 8 (unix_nano ts)) (uuid_bytes tea_id)
        (big_endian-length 8 (unix_nano ts))

tea_field :
    (user_id : ℕ) (ts : Time) (tea_id : ℕ)
    → take 16 (drop 26 (consumption_key user_id ts tea_id)) ≡ big_endian 16 tea_id
unfolding consumption_key uuid_bytes
tea_field user_id ts tea_id =
    let p = consumption_by_user_id user_id in
    let t = big_endian 8 (unix_nano ts) in
    let i = big_endian 16 tea_id in
    ap (λ key. take 16 (drop 26 key)) (sym (append_assoc p t i))
    ∙ ap (take 16) (
        drop_exact 26 (p ++ t) i (
          omega
            (arith, length-append p t, by_user-length user_id, big_endian-length 8 (unix_nano ts))))
    ∙ ap (take 16) (sym (append-nil i))
    ∙ take_exact 16 i [] (big_endian-length 16 tea_id)

by_user_ne :
    (user_id other : ℕ)
    → user_id < bound 16
    → other < bound 16
    → other ≢ user_id
    → bytes_eq (consumption_by_user_id user_id) (consumption_by_user_id other) ≡ false
unfolding consumption_by_user_id uuid_bytes bytes_eq
by_user_ne user_id other hu ho ne = rw (bytes_eq-big_endian 16 user_id other hu ho) (ground arith)

bytes_lt-same_prefix : (p xs ys : Bytes) → bytes_lt (p ++ xs) (p ++ ys) ≡ bytes_lt xs ys
bytes_lt-same_prefix p xs ys =
    rw (bytes_lt-append p p xs ys refl, bytes_lt_irrefl p, bytes_eq_refl p)

-- A key is parsed back, under its user's prefix, to its tea and, for a time from the epoch on, to its
-- time; a time before the epoch is read as the last instant of the 64-bit range. Under the prefix
-- of another user it is refused.
pub parse_consumption_key-consumption_key :
    (user_id : ℕ) (ts : Time) (tea_id : ℕ)
    → user_id < bound 16
    → FitsInt64 ts
    → tea_id < bound 16
    → (parse_consumption_key (consumption_by_user_id user_id) (consumption_key user_id ts tea_id)
        ≡ some (read_time ts, tea_id))
      × ((other : ℕ)
          → other < bound 16
          → other ≢ user_id
          → parse_consumption_key (consumption_by_user_id other) (consumption_key user_id ts tea_id)
            ≡ none)
unfolding parse_consumption_key
parse_consumption_key-consumption_key user_id ts tea_id hu ht hi = (
  rw (key-length user_id ts tea_id, by_user-length user_id)
      (rw
        (
          prefix_field user_id ts tea_id,
          bytes_eq_refl (consumption_by_user_id user_id),
          time_field user_id ts tea_id,
          tea_field user_id ts tea_id,
          number_from-big_endian 8 (unix_nano ts) (unix_nano-bound ts ht),
          number_from-big_endian 16 tea_id hi,
        )
        (ap (λ time. some (time, tea_id)) (read_time_lem ts ht))),
  λ other ho ne.
      rw (key-length user_id ts tea_id, by_user-length other)
        (rw (prefix_field user_id ts tea_id, by_user_ne user_id other hu ho ne)),
)

-- Of one user's keys of times from the epoch on, within 64 bits of nanoseconds, and of 128-bit teas, the one
-- of the earlier time comes first, and at equal times the one of the smaller tea. So a scan meets the
-- user's consumptions from the epoch on in the order of time. Keys of times before the epoch are not
-- compared.
pub bytes_lt-consumption_key :
    (user_id m n t u : ℕ)
    → m ≤ max_int64
    → n ≤ max_int64
    → t < bound 16
    → u < bound 16
    → bytes_lt (consumption_key user_id (pos m) t) (consumption_key user_id (pos n) u)
      ≡ (ltb m n || (m == n && ltb t u))
unfolding consumption_key uuid_bytes
bytes_lt-consumption_key user_id m n t u hm hn ht hu =
    let first = unix_nano-bound (pos m) hm in
    let second = unix_nano-bound (pos n) hn in
    rw (
      bytes_lt-same_prefix (consumption_by_user_id user_id)
          (big_endian 8 (unix_nano (pos m)) ++ big_endian 16 t)
          (big_endian 8 (unix_nano (pos n)) ++ big_endian 16 u),
      bytes_lt-append (big_endian 8 (unix_nano (pos m))) (big_endian 8 (unix_nano (pos n)))
          (big_endian 16 t) (big_endian 16 u)
          (big_endian-length 8 (unix_nano (pos m)) ∙ sym (big_endian-length 8 (unix_nano (pos n)))),
      bytes_lt-big_endian 8 (unix_nano (pos m)) (unix_nano (pos n)) first second,
      bytes_eq-big_endian 8 (unix_nano (pos m)) (unix_nano (pos n)) first second,
      bytes_lt-big_endian 16 t u ht hu,
      unix_nano_pos m hm,
      unix_nano_pos n hn,
    )
