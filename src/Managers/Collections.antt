-- ===== src/Managers/Collections.antt =====
-- internal/managers/collection/manager.go: the collections of a user. Logging is left out.
pub mod Guard
use tea_elephant_memory.Prelude.{ℕ, List, [], ◌∷◌, map, Bytes}
use tea_elephant_memory.Clock.{Time}
use tea_elephant_memory.Domain as Common
use tea_elephant_memory.Store.{Db, Result, ok, err, Exec, ◌>>=◌, ◌>>◌, pure}
use tea_elephant_memory.Adapter.{Error}
use tea_elephant_memory.Adapter.Collections.{
  create_collection, add_tea_to_collection, delete_tea_from_collection, delete_collection,
  collections, collection, collection_records,
}
use tea_elephant_memory.Models.{Collection, QrRecord, from_common_tea}

model_of_record : Common.CollectionRecord → QrRecord
model_of_record r = record {
  id = r.id;
  tea = from_common_tea r.tea;
  bowling_temp = r.bowling_temp;
  expiration_date = r.expiration_date;
}

unfoldable pub list_records : ℕ → ℕ → Exec Error (List QrRecord)
unfolding model_of_record
list_records id user_id = do
  _ ← collection id user_id
  records ← collection_records id
  pure (map model_of_record records)

unfoldable pub create : ℕ → Time → ℕ → Bytes → Exec Error Collection
create new_id now user_id name = do
  id ← create_collection new_id now user_id name
  pure (record { id = id; name = name; user_id = user_id })

pub add_records : ℕ → ℕ → List ℕ → Exec Error Collection
add_records user_id id teas = do
  _ ← collection id user_id
  add_tea_to_collection id teas
  reloaded ← collection id user_id
  pure (record { id = id; name = reloaded.name; user_id = user_id })

pub delete_records : ℕ → ℕ → List ℕ → Exec Error Collection
delete_records user_id id teas = do
  _ ← collection id user_id
  delete_tea_from_collection id teas
  reloaded ← collection id user_id
  pure (record { id = id; name = reloaded.name; user_id = user_id })

unfoldable pub delete : ℕ → ℕ → Exec Error (Unit {0})
delete user_id id = delete_collection id user_id

unfoldable pub list : ℕ → Exec Error (List Collection)
list user_id = do
  found ← collections user_id
  pure (
      map (λ (c : Common.Collection). record { id = c.id; name = c.name; user_id = user_id }) found)
