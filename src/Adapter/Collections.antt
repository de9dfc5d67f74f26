-- ===== src/Adapter/Collections.antt =====
-- pkg/pg/db.go: collections and their records.
pub mod Membership
pub mod Ownership
use tea_elephant_memory.Prelude.{ℕ, List, [], ◌∷◌, map, Bytes}
use tea_elephant_memory.Clock.{Time}
use tea_elephant_memory.Domain.{Collection, CollectionRecord, string_to_beverage_type}
use tea_elephant_memory.Store.{Db, Result, ok, err, Exec, CollectionRow, ◌>>=◌, ◌>>◌, pure}
use tea_elephant_memory.Store.Records.{
  CollectionRecordRow, insert_collection, insert_collection_items, delete_collection_item,
  list_collections, get_collection, list_collection_records,
}
use tea_elephant_memory.Store.Records as Statements
use tea_elephant_memory.Adapter.{Error, wrap, nullable_string}

unfoldable pub create_collection : ℕ → Time → ℕ → Bytes → Exec Error ℕ
create_collection id now user_id name = do
  collection ← wrap "insert collection" (insert_collection id user_id name now)
  pure collection.id

pub add_tea_to_collection : ℕ → List ℕ → Exec Error (Unit {0})
add_tea_to_collection id [] = pure tt
add_tea_to_collection id (t ∷ teas) =
    wrap "add qr to collection (batch)" (insert_collection_items id (t ∷ teas))

pub delete_tea_from_collection : ℕ → List ℕ → Exec Error (Unit {0})
delete_tea_from_collection id [] = pure tt
delete_tea_from_collection id (qr_id ∷ teas) = do
  wrap "delete qr from collection" (delete_collection_item id qr_id)
  delete_tea_from_collection id teas

unfoldable pub delete_collection : ℕ → ℕ → Exec Error (Unit {0})
delete_collection id user_id = wrap "delete collection" (Statements.delete_collection id user_id)

collection_of_row : CollectionRow → Collection
collection_of_row c = record { id = c.id; name = c.name }

unfoldable pub collections : ℕ → Exec Error (List Collection)
unfolding collection_of_row
collections user_id = do
  rows ← wrap "list collections" (list_collections user_id)
  pure (map collection_of_row rows)

unfoldable pub collection : ℕ → ℕ → Exec Error Collection
unfolding collection_of_row
collection id user_id = do
  row ← wrap "get collection" (get_collection id user_id)
  pure (collection_of_row row)

record_of_row : CollectionRecordRow → CollectionRecord
record_of_row r = record {
  id = r.qr_id;
  tea = record {
    id = r.tea_id;
    tea_data = record {
      name = r.name;
      type = string_to_beverage_type r.type;
      description = nullable_string r.description;
    };
  };
  bowling_temp = r.boiling_temp;
  expiration_date = r.expiration_date;
}

unfoldable pub collection_records : ℕ → Exec Error (List CollectionRecord)
unfolding record_of_row
collection_records id = do
  rows ← wrap "list collection records" (list_collection_records id)
  pure (map record_of_row rows)
