-- ===== src/Store/Teas.antt =====
-- pkg/pgstore/queries.go: the statements on teas.
use tea_elephant_memory.Prelude.{
  ℕ, Bool, Option, none, some, List, [], ◌∷◌, ◌++◌, ◌==◌, ◌||◌, not, if◌then◌else◌, Bytes, bytes_eq,
  keep, sort, take,
}
use tea_elephant_memory.Clock.{Time, after}
use tea_elephant_memory.Domain.{tea_text, herb_text, coffee_text, other_text}
use tea_elephant_memory.Store.{
  Db, Postgres, TeaRow, TeaTagRow, QrRow, ItemRow, ConsumptionRow, no_rows, unique_violation,
  check_violation, ok, err, Query, statement, exists, find, update, one_row,
}

-- CHECK (type IN ('tea','herb','coffee','other'))
unfoldable pub tea_type_check : Bytes → Bool
tea_type_check type =
    bytes_eq type tea_text
    || (bytes_eq type herb_text || (bytes_eq type coffee_text || bytes_eq type other_text))

unfoldable pub insert_tea : ℕ → Bytes → Bytes → Option Bytes → Time → Query TeaRow
insert_tea id name type description now = statement λ db.
    let tea : TeaRow = record {
      id = id;
      name = name;
      type = type;
      description = description;
      created_at = now;
    } in
    if not (tea_type_check type)
    then (err check_violation, db)
    else if exists (λ (t : TeaRow). t.id == id) db.teas
    then (err unique_violation, db)
    else (ok tea, record db { teas = db.teas ++ tea ∷ [] })

unfoldable pub update_tea : ℕ → Bytes → Bytes → Option Bytes → Query TeaRow
update_tea id name type description = statement λ db.
    elim (find (λ (t : TeaRow). t.id == id) db.teas) [
      | none ↦ (err no_rows, db)
      | some t ↦
          let tea : TeaRow = record t { name = name; type = type; description = description } in
          if not (tea_type_check type)
          then (err check_violation, db)
          else (ok tea, record db { teas = update (λ (u : TeaRow). u.id == id) (λ _. tea) db.teas })
    ]

-- The items of collections that refer to a deleted QR record, or to a QR record of a deleted tea.
pub items_without : (QrRow → Bool) → Db → List ItemRow
items_without gone db =
    keep (λ (i : ItemRow). not (exists (λ (q : QrRow). q.id == i.qr_id) (keep gone db.qr_records)))
      db.items

-- DELETE FROM teas, with what cascades: tags of the tea, its QR records and their places in
-- collections, and its consumptions.
unfoldable pub delete_tea : ℕ → Query (Unit {0})
unfolding items_without
delete_tea id = statement λ db. (
  ok tt,
  record db {
    teas = keep (λ (t : TeaRow). not (t.id == id)) db.teas;
    tea_tags = keep (λ (t : TeaTagRow). not (t.tea_id == id)) db.tea_tags;
    qr_records = keep (λ (q : QrRow). not (q.tea_id == id)) db.qr_records;
    items = items_without (λ q. q.tea_id == id) db;
    consumptions = keep (λ (c : ConsumptionRow). not (c.tea_id == id)) db.consumptions;
  },
)

unfoldable pub get_tea : ℕ → Query TeaRow
get_tea id = statement λ db. one_row (find (λ (t : TeaRow). t.id == id) db.teas) db

-- ORDER BY created_at DESC
pub list_teas : Query (List TeaRow)
list_teas = statement λ db. (ok (sort (λ t u. after t.created_at u.created_at) db.teas), db)

module _ (pg : Postgres) where
  -- lower(name) LIKE lower($1) || '%'
  unfoldable pub name_matches : Bytes → Bytes → Bool
  name_matches prefix name = pg.like (pg.lower prefix ++ b'%' ∷ []) (pg.lower name)

  -- ORDER BY name ASC LIMIT $2
  pub search_teas_by_prefix : Bytes → ℕ → Query (List TeaRow)
  unfolding name_matches
  search_teas_by_prefix prefix limit = statement λ db. (
    ok (
        take limit (
          sort (λ t u. pg.collates_before t.name u.name)
            (keep (λ (t : TeaRow). name_matches prefix t.name) db.teas))),
    db,
  )
