-- ===== src/Consumption.antt =====
-- internal/consumption: what was drunk when, in memory (store.go) and in the database (pg_store.go).
-- Each method runs under the store's mutex, or as its statements. sort.Slice leaves ties in any
-- order; here they stand in the order of storage.
pub mod Retention
pub mod Table
mod Tests
use tea_elephant_memory.Prelude.{
  ℕ, Bool, List, [], ◌∷◌, ◌++◌, map, keep, sort, not, ℤ, pos, ◌-ℤ◌, leb_ℤ, if◌then◌else◌, Map,
  insert, get_or, none,
}
use tea_elephant_memory.Clock.{Time, before, after}
use tea_elephant_memory.Store.{
  Db, Postgres, Exec, Result, ok, err, ConsumptionRow, ◌>>=◌, ◌>>◌, pure,
}
use tea_elephant_memory.Store.Consumptions.{
  insert_consumption, delete_consumptions_before, list_consumptions_since,
}
use tea_elephant_memory.Adapter.{Error, wrap}

pub record Consumption : Type 0 where
  pub tea_id : ℕ
  pub time : Time

-- 30 days in nanoseconds.
abbrev pub default_retention : ℤ
default_retention = pos 2_592_000_000_000_000

abbrev pub effective_retention : ℤ → ℤ
effective_retention retention = if leb_ℤ retention (pos 0) then default_retention else retention

pub record MemoryStore : Type 0 where
  pub events : Map (List Consumption)
  pub retention : ℤ

pub new_memory_store : ℤ → MemoryStore
new_memory_store retention = record {
  events = λ _. none;
  retention = effective_retention retention;
}

-- MemoryStore.Record
pub record_consumption : ℕ → ℕ → Time → MemoryStore → MemoryStore
record_consumption user_id tea_id ts m =
    let appended = get_or (m.events user_id) [] ++ record { tea_id = tea_id; time = ts } ∷ [] in
    let cutoff = ts -ℤ m.retention in
    record m { events = insert user_id (keep (λ e. after e.time cutoff) appended) m.events }

abbrev pub newest_first : Consumption → Consumption → Bool
newest_first c d = after c.time d.time

-- MemoryStore.Recent
pub recent : ℕ → Time → MemoryStore → List Consumption
recent user_id since m =
    sort newest_first (keep (λ e. not (before e.time since)) (get_or (m.events user_id) []))

module _ (pg : Postgres) (retention : ℤ) where
  -- PGStore.Record
  pub record_row : ℕ → ℕ → Time → Exec Error (Unit {0})
  record_row user_id tea_id ts = do
    wrap "pg consumption.Record: insert" (insert_consumption pg user_id ts tea_id)
    wrap "pg consumption.Record: retention delete"
        (delete_consumptions_before pg user_id (ts -ℤ effective_retention retention))

-- PGStore.Recent
pub recent_rows : Postgres → ℕ → Time → Exec Error (List Consumption)
recent_rows pg user_id since = do
  rows ← wrap "pg consumption.Recent: query" (list_consumptions_since pg user_id since)
  pure (map (λ (c : ConsumptionRow). record { tea_id = c.tea_id; time = c.ts }) rows)
