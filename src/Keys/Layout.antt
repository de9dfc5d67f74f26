-- ===== src/Keys/Layout.antt =====
-- The other keys of the builder, and what a scan under the prefix of one identifier meets.
use tea_elephant_memory.Prelude.{
  ℕ, ◌<◌, ◌≡◌, refl, ap, sym, subst, ◌∙◌, Bool, ◌==◌, [], ◌∷◌, ◌++◌, length, length-append, take,
  take-append, append_assoc, arith, Bytes, bytes_eq,
}
use tea_elephant_memory.Keys.{append_prefix, append_uuid, append_index, uuid_bytes, big_endian}
use tea_elephant_memory.Keys.BigEndian.{bound, big_endian-length, bytes_eq-big_endian}

abbrev pub version : ℕ
version = b'v'

abbrev pub record_byte : ℕ
record_byte = b'r'

abbrev pub qr_byte : ℕ
qr_byte = b'q'

abbrev pub tag_category_byte : ℕ
tag_category_byte = b'c'

abbrev pub tag_byte : ℕ
tag_byte = b't'

abbrev pub collection_byte : ℕ
collection_byte = b'l'

abbrev pub user_byte : ℕ
user_byte = b'u'

abbrev pub notification_byte : ℕ
notification_byte = b'o'

abbrev pub device_byte : ℕ
device_byte = b'd'

abbrev pub record_name_index : ℕ
record_name_index = b'n'

abbrev pub tag_category_index_name : Bytes
tag_category_index_name = b'i' ∷ b'c' ∷ []

abbrev pub tag_index_category_name : Bytes
tag_index_category_name = b'i' ∷ b't' ∷ []

abbrev pub tag_index_name : Bytes
tag_index_name = b'i' ∷ b'n' ∷ []

abbrev pub tag_index_tea : Bytes
tag_index_tea = b'i' ∷ b'a' ∷ []

abbrev pub tea_index_tag : Bytes
tea_index_tag = b'i' ∷ b'b' ∷ []

abbrev pub collection_index_tea : Bytes
collection_index_tea = b'i' ∷ b'l' ∷ []

abbrev pub user_index_apple_id : Bytes
user_index_apple_id = b'i' ∷ b'i' ∷ []

abbrev pub user_index_notifications : Bytes
user_index_notifications = b'i' ∷ b'u' ∷ []

abbrev pub user_index_devices : Bytes
user_index_devices = b'i' ∷ b'd' ∷ []

pub version_key : Bytes
version_key = version ∷ []

pub records : Bytes
records = record_byte ∷ []

pub record_key : ℕ → Bytes
record_key id = append_uuid record_byte id

pub records_by_name : Bytes → Bytes
records_by_name name = append_prefix record_name_index name

pub qr_key : ℕ → Bytes
qr_key id = append_uuid qr_byte id

pub tag_categories : Bytes
tag_categories = tag_category_byte ∷ []

pub tag_category : ℕ → Bytes
tag_category id = append_uuid tag_category_byte id

pub tag_category_by_name : Bytes → Bytes
tag_category_by_name name = append_index tag_category_index_name name

pub tags_key : Bytes
tags_key = tag_byte ∷ []

pub tag_key : ℕ → Bytes
tag_key id = append_uuid tag_byte id

pub tags_by_name : Bytes → Bytes
tags_by_name name = append_index tag_index_name name

pub tags_by_name_and_category : ℕ → Bytes → Bytes
tags_by_name_and_category category name =
    append_index tag_index_category_name (uuid_bytes category ++ name)

pub tags_by_category : ℕ → Bytes
tags_by_category category = append_index tag_index_category_name (uuid_bytes category)

pub tags_by_tea : ℕ → Bytes
tags_by_tea tea = append_index tea_index_tag (uuid_bytes tea)

pub teas_by_tag : ℕ → Bytes
teas_by_tag tag = append_index tag_index_tea (uuid_bytes tag)

pub tag_tea_pair : ℕ → ℕ → Bytes
tag_tea_pair tag tea = append_index tag_index_tea (uuid_bytes tag ++ uuid_bytes tea)

pub tea_tag_pair : ℕ → ℕ → Bytes
tea_tag_pair tea tag = append_index tea_index_tag (uuid_bytes tea ++ uuid_bytes tag)

pub collection_key : ℕ → ℕ → Bytes
collection_key id user_id = append_index (append_uuid collection_byte user_id) (uuid_bytes id)

pub user_collections : ℕ → Bytes
user_collections id = append_uuid collection_byte id

pub collections_teas : ℕ → ℕ → Bytes
collections_teas id tea_id = append_index collection_index_tea (uuid_bytes id ++ uuid_bytes tea_id)

pub records_by_collection : ℕ → Bytes
records_by_collection id = append_index collection_index_tea (uuid_bytes id)

pub users_key : Bytes
users_key = user_byte ∷ []

pub user_key : ℕ → Bytes
user_key id = append_uuid user_byte id

pub user_by_apple_id : Bytes → Bytes
user_by_apple_id id = append_index user_index_apple_id id

pub device : ℕ → Bytes
device id = append_uuid device_byte id

pub devices_by_user_id : ℕ → Bytes
devices_by_user_id id = append_index user_index_devices (uuid_bytes id)

pub notification : ℕ → Bytes
notification id = append_uuid notification_byte id

pub notification_by_user_id : ℕ → Bytes
notification_by_user_id id = append_index user_index_notifications (uuid_bytes id)

-- The keys that a scan of a prefix meets.
abbrev pub begins : Bytes → Bytes → Bool
begins prefix key = bytes_eq (take (length prefix) key) prefix

bytes_eq-same_prefix : (p xs ys : Bytes) → bytes_eq (p ++ xs) (p ++ ys) ≡ bytes_eq xs ys
unfolding bytes_eq
bytes_eq-same_prefix [] xs ys = refl
bytes_eq-same_prefix (x ∷ p) xs ys = ground (arith, bytes_eq-same_prefix p xs ys)

begins_lem :
    (p : Bytes) (a b : ℕ) (rest : Bytes)
    → a < bound 16
    → b < bound 16
    → begins (p ++ uuid_bytes b) (p ++ (uuid_bytes a ++ rest)) ≡ (a == b)
unfolding uuid_bytes
begins_lem p a b rest ha hb =
    let same : length (p ++ big_endian 16 a) ≡ length (p ++ big_endian 16 b) = omega (
      arith,
      length-append p (big_endian 16 a),
      length-append p (big_endian 16 b),
      big_endian-length 16 a,
      big_endian-length 16 b,
    ) in
    let taken : take (length (p ++ big_endian 16 b)) (p ++ (big_endian 16 a ++ rest))
        ≡ p ++ big_endian 16 a =
      subst (λ n. take n (p ++ (big_endian 16 a ++ rest)) ≡ p ++ big_endian 16 a) same
        (ap (take (length (p ++ big_endian 16 a))) (sym (append_assoc p (big_endian 16 a) rest))
          ∙ take-append (p ++ big_endian 16 a) rest) in
    rw (
      taken,
      bytes_eq-same_prefix p (big_endian 16 a) (big_endian 16 b),
      bytes_eq-big_endian 16 a b ha hb,
    )

-- A scan under the prefix of one identifier meets a key of the index, or of a user's collections,
-- exactly when the key is of that identifier.
pub scan_isolated :
    (a b other : ℕ) (name : Bytes)
    → a < bound 16
    → b < bound 16
    → (begins (tags_by_tea b) (tea_tag_pair a other) ≡ (a == b))
      × (begins (teas_by_tag b) (tag_tea_pair a other) ≡ (a == b))
      × (begins (records_by_collection b) (collections_teas a other) ≡ (a == b))
      × (begins (user_collections b) (collection_key other a) ≡ (a == b))
      × (begins (tags_by_category b) (tags_by_name_and_category a name) ≡ (a == b))
unfolding tags_by_tea tea_tag_pair teas_by_tag tag_tea_pair records_by_collection collections_teas
    user_collections collection_key tags_by_category tags_by_name_and_category
scan_isolated a b other name ha hb = (
  begins_lem tea_index_tag a b (uuid_bytes other) ha hb,
  begins_lem tag_index_tea a b (uuid_bytes other) ha hb,
  begins_lem collection_index_tea a b (uuid_bytes other) ha hb,
  begins_lem (collection_byte ∷ []) a b (uuid_bytes other) ha hb,
  begins_lem tag_index_category_name a b name ha hb,
)
