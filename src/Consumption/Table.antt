-- ===== src/Consumption/Table.antt =====
-- PGStore.Record: the rows that it leaves.
use tea_elephant_memory.Prelude.{
  ℕ, ◌≡◌, Bool, true, not, ◌&&◌, ◌||◌, Bool-cases, inl, inr, List, [], ◌∷◌, ◌++◌, keep, ℤ, ◌-ℤ◌,
  eqb_ℤ, ◌==◌, arith, if◌then◌else◌,
}
use tea_elephant_memory.Clock.{Time, before}
use tea_elephant_memory.Store.{Db, Postgres, ok, UserRow, TeaRow, ConsumptionRow, exists}
use tea_elephant_memory.Store.Consumptions.{insert_consumption, delete_consumptions_before}
use tea_elephant_memory.Store.Rows.{
  statement_healthy, exists-keep, exists-append, exists-one, exists-weaken,
}
use tea_elephant_memory.Consumption.{record_row, effective_retention}

abbrev pub same : ConsumptionRow → ConsumptionRow → Bool
same c d = d.user_id == c.user_id && (eqb_ℤ d.ts c.ts && d.tea_id == c.tea_id)

abbrev add_row : ConsumptionRow → List ConsumptionRow → List ConsumptionRow
add_row row rows =
    if exists (λ c. c.user_id == row.user_id && (eqb_ℤ c.ts row.ts && c.tea_id == row.tea_id)) rows
    then rows
    else rows ++ row ∷ []

same_trans : (c row x : ConsumptionRow) → same c row ≡ true → same row x ≡ true → same c x ≡ true
same_trans c row x h k = ground arith

same-exists :
    (c row : ConsumptionRow) (rows : List ConsumptionRow)
    → same c row ≡ true
    → exists (same row) rows ≡ true
    → exists (same c) rows ≡ true
same-exists c row rows h = exists-weaken (same c) (same row) rows (λ x. same_trans c row x h)

exists-add_row :
    (c row : ConsumptionRow) (rows : List ConsumptionRow)
    → exists (same c) (add_row row rows) ≡ (exists (same c) rows || same c row)
exists-add_row c row rows = elim (Bool-cases (exists (same row) rows)) [
  | inl old ↦ rw old (ground (arith, same-exists c row rows))
  | inr new ↦ rw (new, exists-append (same c) rows (row ∷ []), exists-one (same c) row)
]

insert_step :
    (pg : Postgres) (user_id tea_id : ℕ) (ts : Time) (db : Db)
    → db.faults ≡ []
    → exists (λ (u : UserRow). u.id == user_id) db.users ≡ true
    → exists (λ (t : TeaRow). t.id == tea_id) db.teas ≡ true
    → insert_consumption pg user_id ts tea_id db ≡ (
      ok tt,
      record db {
        consumptions =
            add_row
              (record { user_id = user_id; ts = pg.timestamptz ts; tea_id = tea_id })
              db.consumptions;
      },
    )
unfolding insert_consumption
insert_step pg user_id tea_id ts db healthy user tea =
    let row : ConsumptionRow = record {
      user_id = user_id;
      ts = pg.timestamptz ts;
      tea_id = tea_id;
    } in
    elim (Bool-cases (exists (same row) db.consumptions)) [
      | inl old ↦ rw (statement_healthy _ db healthy, old)
      | inr new ↦ rw (statement_healthy _ db healthy, new, user, tea)
    ]

delete_step :
    (pg : Postgres) (user_id : ℕ) (cutoff : Time) (db : Db)
    → db.faults ≡ []
    → delete_consumptions_before pg user_id cutoff db ≡ (
      ok tt,
      record db {
        consumptions =
            keep
              (λ (c : ConsumptionRow).
                not (c.user_id == user_id && before c.ts (pg.timestamptz cutoff)))
              db.consumptions;
      },
    )
unfolding delete_consumptions_before
delete_step pg user_id cutoff db healthy = statement_healthy _ db healthy

stays_same :
    (user_id : ℕ) (cutoff : Time) (c x : ConsumptionRow)
    → same c x ≡ true
    → not (x.user_id == user_id && before x.ts cutoff)
      ≡ not (c.user_id == user_id && before c.ts cutoff)
stays_same user_id cutoff c x h = ground arith

module _ (pg : Postgres) (retention : ℤ) where
  -- On a healthy connection, for a stored user and tea, Record succeeds; then a row is in the table if it
  -- was or is the new one, and is not a row of this user before the end of retention.
  pub record_row_lem :
      (user_id tea_id : ℕ) (ts : Time) (db : Db)
      → db.faults ≡ []
      → exists (λ (u : UserRow). u.id == user_id) db.users ≡ true
      → exists (λ (t : TeaRow). t.id == tea_id) db.teas ≡ true
      → (rows : List ConsumptionRow) × (record_row pg retention user_id tea_id ts db
          ≡ (ok tt, record db { consumptions = rows }))
        × ((c : ConsumptionRow)
            → exists (same c) rows
              ≡ (exists (same c) db.consumptions
                  || same c (record { user_id = user_id; ts = pg.timestamptz ts; tea_id = tea_id }))
                && not (
                    c.user_id == user_id
                    && before c.ts (pg.timestamptz (ts -ℤ effective_retention retention))))
  unfolding record_row
  record_row_lem user_id tea_id ts db healthy user tea =
      let row : ConsumptionRow = record {
        user_id = user_id;
        ts = pg.timestamptz ts;
        tea_id = tea_id;
      } in
      let cutoff = pg.timestamptz (ts -ℤ effective_retention retention) in
      let stays = λ (c : ConsumptionRow). not (c.user_id == user_id && before c.ts cutoff) in
      (
        keep stays (add_row row db.consumptions),
        rw (
          insert_step pg user_id tea_id ts db healthy user tea,
          delete_step pg user_id (ts -ℤ effective_retention retention)
              (record db { consumptions = add_row row db.consumptions }) healthy,
        ),
        λ c. rw (
          exists-keep (same c) stays (stays c) (add_row row db.consumptions)
              (stays_same user_id cutoff c),
          exists-add_row c row db.consumptions,
        ),
      )
