-- ===== src/Adapter.antt =====
-- pkg/pg/db.go: the storage that the managers use, over the statements of Store. A method that draws
-- an identifier (uuid.New) takes it as an argument, and so the current time where a statement needs it.
pub mod Teas
pub mod Tags
pub mod Collections
pub mod Users
mod Tests
use Prim.Native.String.{String}
use tea_elephant_memory.Prelude.{ℕ, Option, none, some, List, [], ◌∷◌, Bytes}
use tea_elephant_memory.Domain.{Tea, TagCategory, Tag, CommonError, string_to_beverage_type}
use tea_elephant_memory.Store.{
  Db, SqlError, Result, ok, err, Exec, Query, TeaRow, TagCategoryRow, TagRow,
}

-- A sentinel of package common, or fmt.Errorf("message: %w", cause).
pub data Error : Type 0 where
  sentinel : CommonError → Error
  wrapped : String → SqlError → Error

abbrev pub wrap_result : {A : Type 0} → String → Result SqlError A × Db → Result Error A × Db
wrap_result message (ok a, db) = (ok a, db)
wrap_result message (err e, db) = (err (wrapped message e), db)

abbrev pub wrap : {A : Type 0} → String → Query A → Exec Error A
wrap message query db = wrap_result message (query db)

-- nullableString
unfoldable pub nullable_string : Option Bytes → Bytes
nullable_string none = []
nullable_string (some text) = text

pub tea_of_row : TeaRow → Tea
unfolding nullable_string
tea_of_row t = record {
  id = t.id;
  tea_data = record {
    name = t.name;
    type = string_to_beverage_type t.type;
    description = nullable_string t.description;
  };
}

pub category_of_row : TagCategoryRow → TagCategory
category_of_row c = record { id = c.id; name = c.name }

pub tag_of_row : TagRow → Tag
tag_of_row t = record {
  id = t.id;
  tag_data = record { name = t.name; color = t.color; category_id = t.category_id };
}
