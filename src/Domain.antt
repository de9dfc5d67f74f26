-- ===== src/Domain.antt =====
-- common/*.go: the domain types shared by all layers. An identifier (uuid.UUID, 16 bytes) is the
-- number that its bytes spell, the nil identifier 0; a string is the list of its bytes.
use tea_elephant_memory.Prelude.{
  ℕ, Option, none, some, List, [], ◌∷◌, ℤ, pos, Bytes, bytes_eq, if◌then◌else◌, eqb_ℤ,
}
use tea_elephant_memory.Clock.{Time}

-- BeverageType is an int with named values.
abbrev pub BeverageType : Type 0
BeverageType = ℤ

abbrev pub tea_beverage_type : BeverageType
tea_beverage_type = pos 0

abbrev pub herb_beverage_type : BeverageType
herb_beverage_type = pos 1

abbrev pub coffee_beverage_type : BeverageType
coffee_beverage_type = pos 2

abbrev pub other_beverage_type : BeverageType
other_beverage_type = pos 3

abbrev pub tea_text : Bytes
tea_text = b't' ∷ b'e' ∷ b'a' ∷ []

abbrev pub herb_text : Bytes
herb_text = b'h' ∷ b'e' ∷ b'r' ∷ b'b' ∷ []

abbrev pub coffee_text : Bytes
coffee_text = b'c' ∷ b'o' ∷ b'f' ∷ b'f' ∷ b'e' ∷ b'e' ∷ []

abbrev pub other_text : Bytes
other_text = b'o' ∷ b't' ∷ b'h' ∷ b'e' ∷ b'r' ∷ []

abbrev pub beverage_type_string_map : List (BeverageType × Bytes)
beverage_type_string_map =
    (tea_beverage_type, tea_text)
    ∷ (herb_beverage_type, herb_text)
    ∷ (coffee_beverage_type, coffee_text)
    ∷ (other_beverage_type, other_text)
    ∷ []

-- The loop over the map; Go visits its entries in any order, here the list's.
pub string_to_beverage_type_in : List (BeverageType × Bytes) → Bytes → BeverageType
string_to_beverage_type_in [] str = other_beverage_type
string_to_beverage_type_in ((beverage, text) ∷ entries) str =
    if bytes_eq text str then beverage else string_to_beverage_type_in entries str

unfoldable pub string_to_beverage_type : Bytes → BeverageType
unfolding string_to_beverage_type_in
string_to_beverage_type = string_to_beverage_type_in beverage_type_string_map

string_of : List (BeverageType × Bytes) → BeverageType → Option Bytes
string_of [] b = none
string_of ((beverage, text) ∷ entries) b =
    if eqb_ℤ beverage b then some text else string_of entries b

-- BeverageType.String
unfoldable pub beverage_type_string : BeverageType → Bytes
unfolding string_of
beverage_type_string b = elim (string_of beverage_type_string_map b) [
  | some str ↦ str
  | none ↦ other_text
]

pub record TeaData : Type 0 where
  pub name : Bytes
  pub type : BeverageType
  pub description : Bytes

pub record Tea : Type 0 where
  pub id : ℕ
  pub tea_data : TeaData
  pub open tea_data use *

pub record Qr : Type 0 where
  pub tea : ℕ
  pub bowling_temp : ℤ
  pub expiration_date : Time

pub record TagCategory : Type 0 where
  pub id : ℕ
  pub name : Bytes

pub record TagData : Type 0 where
  pub name : Bytes
  pub color : Bytes
  pub category_id : ℕ

pub record Tag : Type 0 where
  pub id : ℕ
  pub tag_data : TagData
  pub open tag_data use *

pub record Collection : Type 0 where
  pub id : ℕ
  pub name : Bytes

pub record CollectionRecord : Type 0 where
  pub id : ℕ
  pub tea : Tea
  pub bowling_temp : ℤ
  pub expiration_date : Time

-- common.User as the storage fills it, with no session.
pub record User : Type 0 where
  pub id : ℕ
  pub apple_id : Bytes

pub record Notification : Type 0 where
  pub user_id : ℕ
  pub type : ℤ

-- common/error.go
pub data CommonError : Type 0 where
  collection_not_found : CommonError
  user_not_found : CommonError
  expired_token : CommonError
  invalid_token : CommonError
  qr_record_not_exist : CommonError
  jwt_incorrect : CommonError
  device_not_found : CommonError
  unauthorized : CommonError
  not_admin : CommonError
