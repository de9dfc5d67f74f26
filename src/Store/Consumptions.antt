-- ===== src/Store/Consumptions.antt =====
-- pkg/pgstore/queries.go: the statements on consumptions.
use tea_elephant_memory.Prelude.{
  ℕ, List, [], ◌∷◌, ◌++◌, ◌==◌, ◌&&◌, not, if◌then◌else◌, eqb_ℤ, keep, sort,
}
use tea_elephant_memory.Clock.{Time, before, after}
use tea_elephant_memory.Store.{
  Postgres, UserRow, TeaRow, ConsumptionRow, foreign_key_violation, ok, err, Query, statement,
  exists,
}

module _ (pg : Postgres) where
  -- ON CONFLICT (user_id, ts, tea_id) DO NOTHING
  unfoldable pub insert_consumption : ℕ → Time → ℕ → Query (Unit {0})
  insert_consumption user_id ts tea_id = statement λ db.
      let row : ConsumptionRow = record {
        user_id = user_id;
        ts = pg.timestamptz ts;
        tea_id = tea_id;
      } in
      if exists
        (λ (c : ConsumptionRow). c.user_id == user_id && (eqb_ℤ c.ts row.ts && c.tea_id == tea_id))
        db.consumptions
      then (ok tt, db)
      else if exists (λ (u : UserRow). u.id == user_id) db.users
          && exists (λ (t : TeaRow). t.id == tea_id) db.teas
      then (ok tt, record db { consumptions = db.consumptions ++ row ∷ [] })
      else (err foreign_key_violation, db)

  -- DELETE ... WHERE user_id = $1 AND ts < $2
  unfoldable pub delete_consumptions_before : ℕ → Time → Query (Unit {0})
  delete_consumptions_before user_id cutoff = statement λ db. (
    ok tt,
    record db {
      consumptions =
          keep
            (λ (c : ConsumptionRow).
              not (c.user_id == user_id && before c.ts (pg.timestamptz cutoff)))
            db.consumptions;
    },
  )

  -- WHERE user_id = $1 AND ts >= $2 ORDER BY ts DESC
  pub list_consumptions_since : ℕ → Time → Query (List ConsumptionRow)
  list_consumptions_since user_id since = statement λ db. (
    ok (
        sort (λ c d. after c.ts d.ts)
          (keep
            (λ (c : ConsumptionRow).
              c.user_id == user_id && not (before c.ts (pg.timestamptz since)))
            db.consumptions)),
    db,
  )
