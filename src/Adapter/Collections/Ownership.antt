-- ===== src/Adapter/Collections/Ownership.antt =====
-- A collection is read and deleted by its user only.
use tea_elephant_memory.Prelude.{
  ℕ, ◌≡◌, refl, Bool, false, not, ◌&&◌, List, [], ◌∷◌, keep, keep-always, ◌==◌, arith,
}
use tea_elephant_memory.Store.{Db, ok, err, no_rows, CollectionRow, exists}
use tea_elephant_memory.Store.Records.{get_collection}
use tea_elephant_memory.Store.Records as Statements
use tea_elephant_memory.Store.Rows.{statement_healthy, exists-find}
use tea_elephant_memory.Adapter.{wrapped}
use tea_elephant_memory.Adapter.Collections.{collection, delete_collection}

abbrev pub owned : ℕ → ℕ → CollectionRow → Bool
owned id user_id c = c.id == id && c.user_id == user_id

keep-not_exists :
    {A : Type 0} (p : A → Bool) (xs : List A)
    → exists p xs ≡ false
    → (keep p xs ≡ []) × (keep (λ x. not (p x)) xs ≡ xs)
unfolding exists keep
keep-not_exists p [] h = (refl, refl)
keep-not_exists p (x ∷ xs) h = ground (arith, keep-not_exists p xs)

-- On a healthy connection, where no collection of the identifier belongs to the user, whoever else's it
-- is, the user cannot read it, and a call to delete it succeeds but changes nothing.
pub foreign_collection :
    (id user_id : ℕ) (db : Db)
    → db.faults ≡ []
    → exists (owned id user_id) db.collections ≡ false
    → (collection id user_id db ≡ (err (wrapped "get collection" no_rows), db))
      × (delete_collection id user_id db ≡ (ok tt, db))
unfolding collection delete_collection get_collection Statements.delete_collection exists
foreign_collection id user_id db healthy foreign =
    let (none_gone, all_kept) = keep-not_exists (owned id user_id) db.collections foreign in
    (
      rw (statement_healthy _ db healthy, exists-find (owned id user_id) db.collections foreign),
      rw (statement_healthy _ db healthy, none_gone, all_kept, keep-always db.items),
    )
