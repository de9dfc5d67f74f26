-- ===== src/Keys.antt =====
-- common/key_value/key_builder: the layout of the keys of the former key-value storage. An identifier
-- is written as its 16 bytes, the most significant first. An append to a key copies it: the prefixes
-- are literals, whose capacity is their length, and the identifiers are arrays passed by value.
pub mod BigEndian
pub mod Layout
pub mod Consumptions
mod Tests
use tea_elephant_memory.Prelude.{
  ℕ, zero, suc, ◌+◌, ◌-◌, ◌*◌, ◌/◌, ◌%◌, ◌^◌, Bool, true, false, Option, none, some, List, [], ◌∷◌,
  ◌++◌, length, take, drop, ltb, if◌then◌else◌, ℤ, pos, negsuc, Bytes, bytes_eq,
}
use tea_elephant_memory.Clock.{Time}

-- The bytes of a number, in the given width.
pub big_endian : ℕ → ℕ → Bytes
big_endian zero n = []
big_endian (suc width) n = big_endian width (n / 256) ++ n % 256 ∷ []

pub uuid_bytes : ℕ → Bytes
unfolding big_endian
uuid_bytes id = big_endian 16 id

-- The number that bytes spell, after a number read already.
pub number_from : ℕ → Bytes → ℕ
number_from n [] = n
number_from n (b ∷ bs) = number_from (n * 256 + b) bs

abbrev pub append_prefix : ℕ → Bytes → Bytes
append_prefix prefix bytes = prefix ∷ bytes

abbrev pub append_uuid : ℕ → ℕ → Bytes
append_uuid prefix id = append_prefix prefix (uuid_bytes id)

abbrev pub append_index : Bytes → Bytes → Bytes
append_index prefix bytes = prefix ++ bytes

abbrev pub user_index_consumption : Bytes
user_index_consumption = b'i' ∷ b'x' ∷ []

pub consumption_by_user_id : ℕ → Bytes
consumption_by_user_id id = append_index user_index_consumption (uuid_bytes id)

-- uint64(ts.UnixNano()), for the instants whose nanoseconds fit in 64 bits.
pub unix_nano : Time → ℕ
unix_nano (pos n) = n % 2 ^ 64
unix_nano (negsuc n) = 2 ^ 64 - 1 - n % 2 ^ 64

pub consumption_key : ℕ → Time → ℕ → Bytes
unfolding big_endian
consumption_key user_id ts tea_id =
    consumption_by_user_id user_id ++ (big_endian 8 (unix_nano ts) ++ uuid_bytes tea_id)

abbrev pub max_int64 : ℕ
max_int64 = 9_223_372_036_854_775_807

-- The three parts after the test of the length.
pub parse_fields : Bytes → Bytes → Option (Time × ℕ)
unfolding number_from
parse_fields prefix key =
    if bytes_eq (take (length prefix) key) prefix
    then (let u = number_from 0 (take 8 (drop (length prefix) key)) in
        let n = if ltb max_int64 u then max_int64 else u in
        let tea_id = number_from 0 (take 16 (drop (length prefix + 8) key)) in some (pos n, tea_id))
    else none

pub parse_consumption_key : Bytes → Bytes → Option (Time × ℕ)
unfolding parse_fields
parse_consumption_key prefix key =
    if ltb (length key) (length prefix + 8 + 16) then none else parse_fields prefix key
