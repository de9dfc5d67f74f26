-- ===== src/Graphql/TeaOfTheDay/Listing.antt =====
-- The loop over the collections.
use tea_elephant_memory.Prelude.{ℕ, ◌≡◌, refl, ◌∙◌, List, [], ◌∷◌, ◌++◌, Bytes}
use tea_elephant_memory.Store.{Db, Result, ok, err, Exec, bind_result, ◌>>=◌, pure}
use tea_elephant_memory.Adapter as Adapter
use tea_elephant_memory.Models.{Collection, QrRecord}
use tea_elephant_memory.Managers.Collections as Manager
use tea_elephant_memory.Graphql.TeaOfTheDay.{Gathered, gather_records, gather}

-- The records of the collections, one collection after the other.
unfoldable pub listed : ℕ → List Collection → Exec Adapter.Error (List QrRecord)
listed user_id [] = pure []
listed user_id (c ∷ cs) = do
  recs ← Manager.list_records c.id user_id
  rest ← listed user_id cs
  pure (recs ++ rest)

gather_records-append :
    (normal : Bytes → Bytes) (xs ys : List QrRecord) (g : Gathered)
    → gather_records normal (xs ++ ys) g ≡ gather_records normal ys (gather_records normal xs g)
unfolding gather_records
gather_records-append normal [] ys g = refl
gather_records-append normal (x ∷ xs) ys g = gather_records-append normal xs ys _

-- The loop over the collections gathers the records that they list.
abbrev pub gathered :
    (Bytes → Bytes)
    → Gathered
    → Result Adapter.Error (List QrRecord) × Db
    → Result Adapter.Error Gathered × Db
gathered normal g (ok recs, db) = (ok (gather_records normal recs g), db)
gathered normal g (err e, db) = (err e, db)

gathered-rest :
    (normal : Bytes → Bytes) (recs : List QrRecord) (g : Gathered)
    (r : Result Adapter.Error (List QrRecord) × Db)
    → gathered normal (gather_records normal recs g) r
      ≡ gathered normal g (bind_result r (λ rest. pure (recs ++ rest)))
gathered-rest normal recs g (ok rest, db) = rw (gather_records-append normal recs rest g) refl
gathered-rest normal recs g (err e, db) = refl

gather_step :
    (normal : Bytes → Bytes) (user_id : ℕ) (cs : List Collection) (g : Gathered)
    → ((g' : Gathered) (db' : Db)
        → gather normal user_id cs g' db' ≡ gathered normal g' (listed user_id cs db'))
    → (r : Result Adapter.Error (List QrRecord) × Db)
    → (elim r.0 [
      | ok recs ↦ gather normal user_id cs (gather_records normal recs g) r.1
      | err e ↦ (err e, r.1)
    ])
      ≡ gathered normal g
          (bind_result r (λ recs. listed user_id cs >>= λ rest. pure (recs ++ rest)))
gather_step normal user_id cs g ih (ok recs, db') =
    ih (gather_records normal recs g) db' ∙ gathered-rest normal recs g (listed user_id cs db')
gather_step normal user_id cs g ih (err e, db') = refl

pub gather-listed :
    (normal : Bytes → Bytes) (user_id : ℕ) (cs : List Collection) (g : Gathered) (db : Db)
    → gather normal user_id cs g db ≡ gathered normal g (listed user_id cs db)
unfolding gather listed
gather-listed normal user_id [] g db = refl
gather-listed normal user_id (c ∷ cs) g db =
    gather_step normal user_id cs g (gather-listed normal user_id cs)
      (Manager.list_records c.id user_id db)
