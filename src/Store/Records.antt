-- ===== src/Store/Records.antt =====
-- pkg/pgstore/queries.go: the statements on QR records, collections and their items.
use tea_elephant_memory.Prelude.{
  ℕ, Option, List, [], ◌∷◌, ◌++◌, map, flat_map, ◌==◌, ◌&&◌, not, if◌then◌else◌, ℤ, Bytes, keep,
  sort,
}
use tea_elephant_memory.Clock.{Time, before, after}
use tea_elephant_memory.Store.{
  Db, Postgres, UserRow, TeaRow, QrRow, CollectionRow, ItemRow, SqlError, unique_violation,
  foreign_key_violation, Result, ok, err, Query, statement, exists, find, update, one_row,
}

module _ (pg : Postgres) where
  -- INSERT ... ON CONFLICT (id) DO UPDATE
  unfoldable pub upsert_qr : ℕ → ℕ → ℤ → Time → Time → Query (Unit {0})
  upsert_qr id tea_id boiling_temp expiration_date now = statement λ db.
      let stored = pg.timestamptz expiration_date in
      let row : QrRow = record {
        id = id;
        tea_id = tea_id;
        boiling_temp = boiling_temp;
        expiration_date = stored;
        created_at = now;
      } in
      if not (exists (λ (t : TeaRow). t.id == tea_id) db.teas)
      then (err foreign_key_violation, db)
      else if exists (λ (q : QrRow). q.id == id) db.qr_records
      then (
        ok tt,
        record db {
          qr_records =
              update (λ (q : QrRow). q.id == id)
                (λ q. record q {
                  tea_id = tea_id;
                  boiling_temp = boiling_temp;
                  expiration_date = stored;
                })
                db.qr_records;
        },
      )
      else (ok tt, record db { qr_records = db.qr_records ++ row ∷ [] })

unfoldable pub get_qr : ℕ → Query QrRow
get_qr id = statement λ db. one_row (find (λ (q : QrRow). q.id == id) db.qr_records) db

pub insert_collection : ℕ → ℕ → Bytes → Time → Query CollectionRow
insert_collection id user_id name now = statement λ db.
    let collection : CollectionRow = record {
      id = id;
      user_id = user_id;
      name = name;
      created_at = now;
    } in
    if exists (λ (c : CollectionRow). c.id == id) db.collections
    then (err unique_violation, db)
    else if exists (λ (u : UserRow). u.id == user_id) db.users
    then (ok collection, record db { collections = db.collections ++ collection ∷ [] })
    else (err foreign_key_violation, db)

-- ON CONFLICT (collection_id, qr_id) DO NOTHING
unfoldable pub add_item : List ItemRow → ItemRow → List ItemRow
add_item items i =
    if exists (λ (j : ItemRow). j.collection_id == i.collection_id && j.qr_id == i.qr_id) items
    then items
    else items ++ i ∷ []

unfoldable pub add_items : List ItemRow → List ItemRow → List ItemRow
unfolding add_item
add_items items [] = items
add_items items (i ∷ is) = add_items (add_item items i) is

pub insert_collection_item : ℕ → ℕ → Query (Unit {0})
unfolding add_item
insert_collection_item collection_id qr_id = statement λ db.
    if exists (λ (i : ItemRow). i.collection_id == collection_id && i.qr_id == qr_id) db.items
    then (ok tt, db)
    else if exists (λ (c : CollectionRow). c.id == collection_id) db.collections
        && exists (λ (q : QrRow). q.id == qr_id) db.qr_records
    then (
      ok tt,
      record db {
        items = add_item db.items (record { collection_id = collection_id; qr_id = qr_id });
      },
    )
    else (err foreign_key_violation, db)

-- SELECT $1, x FROM unnest($2) AS t(x) JOIN qr_records q ON q.id = x: identifiers of no QR record are
-- left out.
unfoldable pub selected_items : Db → ℕ → List ℕ → List ItemRow
selected_items db collection_id qr_ids =
    map (λ x. record { collection_id = collection_id; qr_id = x })
      (keep (λ x. exists (λ (q : QrRow). q.id == x) db.qr_records) qr_ids)

-- Only a row that is inserted needs its collection.
unfoldable pub insert_selected : ℕ → Db → List ItemRow → Result SqlError (Unit {0}) × Db
unfolding add_items
insert_selected collection_id db [] = (ok tt, db)
insert_selected collection_id db (i ∷ is) =
    if exists (λ (c : CollectionRow). c.id == collection_id) db.collections
    then (ok tt, record db { items = add_items db.items (i ∷ is) })
    else (err foreign_key_violation, db)

unfoldable pub insert_collection_items : ℕ → List ℕ → Query (Unit {0})
unfolding insert_selected selected_items
insert_collection_items collection_id qr_ids =
    statement λ db. insert_selected collection_id db (selected_items db collection_id qr_ids)

unfoldable pub delete_collection_item : ℕ → ℕ → Query (Unit {0})
delete_collection_item collection_id qr_id = statement λ db. (
  ok tt,
  record db {
    items =
        keep (λ (i : ItemRow). not (i.collection_id == collection_id && i.qr_id == qr_id)) db.items;
  },
)

-- DELETE FROM collections WHERE id = $1 AND user_id = $2, which cascades to the items.
unfoldable pub delete_collection : ℕ → ℕ → Query (Unit {0})
delete_collection id user_id = statement λ db.
    let gone = λ (c : CollectionRow). c.id == id && c.user_id == user_id in
    (
      ok tt,
      record db {
        collections = keep (λ c. not (gone c)) db.collections;
        items =
            keep
              (λ (i : ItemRow). not (
                exists (λ (c : CollectionRow). c.id == i.collection_id) (keep gone db.collections)))
              db.items;
      },
    )

-- ORDER BY created_at DESC
unfoldable pub list_collections : ℕ → Query (List CollectionRow)
list_collections user_id = statement λ db. (
  ok (
      sort (λ c d. after c.created_at d.created_at)
        (keep (λ (c : CollectionRow). c.user_id == user_id) db.collections)),
  db,
)

unfoldable pub get_collection : ℕ → ℕ → Query CollectionRow
get_collection id user_id = statement λ db.
    one_row (find (λ (c : CollectionRow). c.id == id && c.user_id == user_id) db.collections) db

pub record CollectionRecordRow : Type 0 where
  pub qr_id : ℕ
  pub tea_id : ℕ
  pub name : Bytes
  pub type : Bytes
  pub description : Option Bytes
  pub boiling_temp : ℤ
  pub expiration_date : Time

-- A QR record with the teas that its tea_id names.
record_rows : Db → QrRow → List CollectionRecordRow
record_rows db q =
    map
      (λ (t : TeaRow). record {
        qr_id = q.id;
        tea_id = t.id;
        name = t.name;
        type = t.type;
        description = t.description;
        boiling_temp = q.boiling_temp;
        expiration_date = q.expiration_date;
      })
      (keep (λ (t : TeaRow). t.id == q.tea_id) db.teas)

-- FROM collection_qr_items c JOIN qr_records q ... JOIN teas t ... ORDER BY q.expiration_date ASC
unfoldable pub list_collection_records : ℕ → Query (List CollectionRecordRow)
unfolding record_rows
list_collection_records collection_id = statement λ db. (
  ok (
      sort (λ r s. before r.expiration_date s.expiration_date)
        (flat_map
          (λ (i : ItemRow).
            flat_map (record_rows db) (keep (λ (q : QrRow). q.id == i.qr_id) db.qr_records))
          (keep (λ (i : ItemRow). i.collection_id == collection_id) db.items))),
  db,
)
