-- ===== src/Adapter/Teas/Deletion.antt =====
-- What deleting a tea, or changing it, does to the storage.
use tea_elephant_memory.Prelude.{
  ℕ, ◌≡◌, ◌≢◌, refl, false, not, List, [], keep, keep-All, All, All-weaken, ◌==◌, arith, Option,
  none, some,
}
use tea_elephant_memory.Domain.{TeaData, beverage_type_string}
use tea_elephant_memory.Store.{
  Db, ok, err, no_rows, TeaRow, TeaTagRow, QrRow, ConsumptionRow, find, one_row, update,
}
use tea_elephant_memory.Store.Rows.{
  statement_healthy, exists-keep-not, exists-find, find-keep, find-update, find-exists,
}
use tea_elephant_memory.Store.Teas.{get_tea, update_tea, items_without}
use tea_elephant_memory.Store.Teas as Statements
use tea_elephant_memory.Adapter.{wrapped, tea_of_row}
use tea_elephant_memory.Adapter.Teas.{read_result, read_record, delete_record, update_record}
use tea_elephant_memory.Adapter.Teas.RoundTrip.{
  stored, beverage_type_check, beverage_type_round_trip,
}

-- No row refers to the tea.
abbrev pub Unreferenced : ℕ → Db → Type 0
Unreferenced id db =
    All (λ (t : TeaTagRow). (t.tea_id == id) ≡ false) db.tea_tags
    × All (λ (q : QrRow). (q.tea_id == id) ≡ false) db.qr_records
    × All (λ (c : ConsumptionRow). (c.tea_id == id) ≡ false) db.consumptions

none_left :
    {A : Type 0} (f : A → ℕ) (id : ℕ) (xs : List A)
    → All (λ x. (f x == id) ≡ false) (keep (λ x. not (f x == id)) xs)
none_left f id xs = All-weaken _ (λ x h. ground arith) _ (keep-All _ xs)

-- What a lookup answers does not depend on the rest of the database.
answer_only :
    (o : Option TeaRow) (db db' : Db)
    → (read_result (one_row o db)).0 ≡ (read_result (one_row o db')).0
unfolding read_result
answer_only none db db' = refl
answer_only (some t) db db' = refl

abbrev without_tea : ℕ → Db → Db
without_tea id db = record db {
  teas = keep (λ (t : TeaRow). not (t.id == id)) db.teas;
  tea_tags = keep (λ (t : TeaTagRow). not (t.tea_id == id)) db.tea_tags;
  qr_records = keep (λ (q : QrRow). not (q.tea_id == id)) db.qr_records;
  items = items_without (λ q. q.tea_id == id) db;
  consumptions = keep (λ (c : ConsumptionRow). not (c.tea_id == id)) db.consumptions;
}

-- On a healthy connection deleting a tea, stored or not, succeeds: then it is not found, every other tea
-- reads as before, and no tag of a tea, QR record or consumption refers to it any more.
pub delete_record_lem :
    (id : ℕ) (db : Db)
    → db.faults ≡ []
    → (db' : Db) × (delete_record id db ≡ (ok tt, db'))
      × (read_record id db' ≡ (err (wrapped "tea not found" no_rows), db'))
      × ((other : ℕ) → other ≢ id → (read_record other db').0 ≡ (read_record other db).0)
      × Unreferenced id db'
unfolding delete_record Statements.delete_tea read_record get_tea
delete_record_lem id db healthy =
    let db' = without_tea id db in
    (
      db',
      rw (statement_healthy _ db healthy),
      rw (
        statement_healthy _ db' healthy,
        exists-find _ _ (exists-keep-not (λ (t : TeaRow). t.id == id) db.teas),
      ),
      λ other ne.
          rw
            (
              statement_healthy _ db' healthy,
              statement_healthy _ db healthy,
              find-keep (λ (t : TeaRow). t.id == other) (λ t. not (t.id == id)) db.teas
                  (λ t e. ground arith),
            )
            (answer_only _ db' db),
      (
        none_left (λ (t : TeaTagRow). t.tea_id) id _,
        none_left (λ (q : QrRow). q.tea_id) id _,
        none_left (λ (c : ConsumptionRow). c.tea_id) id _,
      ),
    )

-- On a healthy connection an update of a stored tea answers the new data, with the type as the storage
-- keeps it, which is what is read afterwards, and an update of a missing tea fails and changes nothing.
pub update_record-read_record :
    (id : ℕ) (rec : TeaData) (db : Db)
    → db.faults ≡ []
    → ((t : TeaRow)
        → find (λ (t : TeaRow). t.id == id) db.teas ≡ some t
        → (db' : Db) × (update_record id rec db
            ≡ (ok (record { id = id; tea_data = stored rec }), db'))
          × (read_record id db' ≡ (ok (record { id = id; tea_data = stored rec }), db')))
      × (find (λ (t : TeaRow). t.id == id) db.teas ≡ none
          → update_record id rec db ≡ (err (wrapped "update tea" no_rows), db))
unfolding update_record update_tea read_record get_tea tea_of_row
update_record-read_record id rec db healthy = (
  λ t known.
      let tea : TeaRow = record t {
        name = rec.name;
        type = beverage_type_string rec.type;
        description = some rec.description;
      } in
      let db' : Db = record db { teas = update (λ (u : TeaRow). u.id == id) (λ _. tea) db.teas } in
      let same : t.id ≡ id = ground (arith, find-exists _ db.teas t known) in
      (
        db',
        rw (
          statement_healthy _ db healthy,
          known,
          beverage_type_check rec.type,
          beverage_type_round_trip rec.type,
          same,
        ),
        rw (
          statement_healthy _ db' healthy,
          find-update _ (λ _. tea) db.teas t (λ _ _. (find-exists _ db.teas t known).1) known,
          beverage_type_round_trip rec.type,
          same,
        ),
      ),
  λ unknown. rw (statement_healthy _ db healthy, unknown),
)
