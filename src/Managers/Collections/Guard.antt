-- ===== src/Managers/Collections/Guard.antt =====
-- Whose collections the manager reads and changes.
use tea_elephant_memory.Prelude.{ℕ, ◌≡◌, true, false, not, ◌&&◌, ◌||◌, List, [], ◌==◌, arith, some}
use tea_elephant_memory.Store.{Db, ok, err, no_rows, CollectionRow, ItemRow, exists, find}
use tea_elephant_memory.Store.Records.{get_collection}
use tea_elephant_memory.Store.Rows.{statement_healthy, find-exists, exists-weaken}
use tea_elephant_memory.Adapter.{Error, wrapped}
use tea_elephant_memory.Adapter.Collections.{collection}
use tea_elephant_memory.Adapter.Collections.Membership.{
  contains, is_qr, add_tea_to_collection_lem, delete_tea_from_collection_lem,
}
use tea_elephant_memory.Adapter.Collections.Ownership.{owned, foreign_collection}
use tea_elephant_memory.Managers.Collections.{list_records, add_records, delete_records, delete}

abbrev pub missing : Error
missing = wrapped "get collection" no_rows

-- On a healthy connection, where no collection of the identifier belongs to the user, whoever else's it
-- is, the user can neither list its records, nor add any, nor take any out: each call fails as for
-- a missing collection. Deleting it succeeds. None of them changes anything.
pub foreign_records_guarded :
    (id user_id : ℕ) (teas : List ℕ) (db : Db)
    → db.faults ≡ []
    → exists (owned id user_id) db.collections ≡ false
    → (list_records id user_id db ≡ (err missing, db))
      × (add_records user_id id teas db ≡ (err missing, db))
      × (delete_records user_id id teas db ≡ (err missing, db))
      × (delete user_id id db ≡ (ok tt, db))
unfolding list_records add_records delete_records delete
foreign_records_guarded id user_id teas db healthy foreign =
    let (unread, undeleted) = foreign_collection id user_id db healthy foreign in
    (rw unread, rw unread, rw unread, undeleted)

collection_found :
    (id user_id : ℕ) (row : CollectionRow) (db : Db)
    → db.faults ≡ []
    → find (owned id user_id) db.collections ≡ some row
    → collection id user_id db ≡ (ok (record { id = row.id; name = row.name }), db)
unfolding collection get_collection
collection_found id user_id row db healthy found = rw (statement_healthy _ db healthy, found)

stored :
    (id user_id : ℕ) (row : CollectionRow) (db : Db)
    → find (owned id user_id) db.collections ≡ some row
    → exists (λ (c : CollectionRow). c.id == id) db.collections ≡ true
stored id user_id row db found =
    exists-weaken (λ (c : CollectionRow). c.id == id) (owned id user_id) db.collections
      (λ c h. ground arith) (find-exists (owned id user_id) db.collections row found).0

-- On a healthy connection, for a collection of the user, adding records answers the collection by its
-- stored name and puts in it exactly the named records that exist, and taking records out answers
-- the same and takes out exactly the named ones; no other collection changes.
pub owned_records_changed :
    (id user_id : ℕ) (teas : List ℕ) (row : CollectionRow) (db : Db)
    → db.faults ≡ []
    → find (owned id user_id) db.collections ≡ some row
    → ((items : List ItemRow) × (add_records user_id id teas db ≡ (
      ok (record { id = id; name = row.name; user_id = user_id }),
      record db { items = items },
    ))
        × ((c q : ℕ)
            → contains c q items
              ≡ contains c q db.items || (id == c && (exists (λ x. x == q) teas && is_qr db q))))
      × ((items : List ItemRow) × (delete_records user_id id teas db ≡ (
        ok (record { id = id; name = row.name; user_id = user_id }),
        record db { items = items },
      ))
          × ((c q : ℕ)
              → contains c q items
                ≡ contains c q db.items && not (id == c && exists (λ x. x == q) teas)))
unfolding add_records delete_records
owned_records_changed id user_id teas row db healthy found =
    let (added, add_ran, add_contains) =
      add_tea_to_collection_lem id teas db healthy (stored id user_id row db found) in
    let (left, delete_ran, delete_contains) = delete_tea_from_collection_lem id teas db healthy in
    (
      (
        added,
        rw (
          collection_found id user_id row db healthy found,
          add_ran,
          collection_found id user_id row (record db { items = added }) healthy found,
        ),
        add_contains,
      ),
      (
        left,
        rw (
          collection_found id user_id row db healthy found,
          delete_ran,
          collection_found id user_id row (record db { items = left }) healthy found,
        ),
        delete_contains,
      ),
    )
