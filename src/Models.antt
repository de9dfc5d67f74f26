-- ===== src/Models.antt =====
-- pkg/api/v2/models: the models of the GraphQL interface, and their conversion from and to the domain
-- types. An identifier (gqlCommon.ID) is the domain's.
pub mod Types
use tea_elephant_memory.Prelude.{ℕ, List, [], ◌∷◌, ℤ, Bytes, bytes_eq, eqb_ℤ, if◌then◌else◌}
use tea_elephant_memory.Clock.{Time}
use tea_elephant_memory.Domain.{
  BeverageType, tea_beverage_type, herb_beverage_type, coffee_beverage_type, other_beverage_type,
  tea_text, herb_text, coffee_text, other_text,
}
use tea_elephant_memory.Domain as Common

-- Type is a string with named values.
abbrev pub BeverageName : Type 0
BeverageName = Bytes

abbrev pub type_unknown : BeverageName
type_unknown = b'u' ∷ b'n' ∷ b'k' ∷ b'n' ∷ b'o' ∷ b'w' ∷ b'n' ∷ []

abbrev pub type_tea : BeverageName
type_tea = tea_text

abbrev pub type_herb : BeverageName
type_herb = herb_text

abbrev pub type_coffee : BeverageName
type_coffee = coffee_text

abbrev pub type_other : BeverageName
type_other = other_text

unfoldable pub from_beverage_type : BeverageType → BeverageName
from_beverage_type bt =
    if eqb_ℤ bt tea_beverage_type
    then type_tea
    else if eqb_ℤ bt herb_beverage_type
    then type_herb
    else if eqb_ℤ bt coffee_beverage_type
    then type_coffee
    else if eqb_ℤ bt other_beverage_type
    then type_other
    else type_other

pub to_beverage_type : BeverageName → BeverageType
to_beverage_type t =
    if bytes_eq t type_tea
    then tea_beverage_type
    else if bytes_eq t type_herb
    then herb_beverage_type
    else if bytes_eq t type_coffee
    then coffee_beverage_type
    else if bytes_eq t type_other
    then other_beverage_type
    else if bytes_eq t type_unknown
    then other_beverage_type
    else other_beverage_type

-- A tea as the conversion fills it, with no tags.
pub record Tea : Type 0 where
  pub id : ℕ
  pub name : Bytes
  pub type : BeverageName
  pub description : Bytes

-- A category as the conversions fill it, with no tags.
pub record TagCategory : Type 0 where
  pub id : ℕ
  pub name : Bytes

pub record Tag : Type 0 where
  pub id : ℕ
  pub name : Bytes
  pub color : Bytes
  pub category : TagCategory

pub record TeaInput : Type 0 where
  pub name : Bytes
  pub type : BeverageName
  pub description : Bytes

pub record QrRecord : Type 0 where
  pub id : ℕ
  pub tea : Tea
  pub bowling_temp : ℤ
  pub expiration_date : Time

pub record QrRecordData : Type 0 where
  pub tea : ℕ
  pub bowling_temp : ℤ
  pub expiration_date : Time

-- A collection as the manager fills it, with no records.
pub record Collection : Type 0 where
  pub id : ℕ
  pub name : Bytes
  pub user_id : ℕ

unfoldable pub from_common_tea : Common.Tea → Tea
from_common_tea source = record {
  id = source.id;
  name = source.name;
  type = from_beverage_type source.type;
  description = source.description;
}

pub to_common_tea : Tea → Common.Tea
to_common_tea t = record {
  id = t.id;
  tea_data = record { name = t.name; type = to_beverage_type t.type; description = t.description };
}

pub to_common_tea_data : TeaInput → Common.TeaData
to_common_tea_data t = record {
  name = t.name;
  type = to_beverage_type t.type;
  description = t.description;
}
