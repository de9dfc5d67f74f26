-- ===== src/Consumption/Tests.antt =====
-- Instances of the theorems on the stores of consumptions, and test runs.
use tea_elephant_memory.Prelude.{
  ◌≡◌, refl, true, not, ◌&&◌, ◌||◌, none, List, [], ◌∷◌, keep, Perm, IsSorted, pos, ◌-ℤ◌, ◌==◌,
  bytes_lt, sort,
}
use tea_elephant_memory.Clock.{before}
use tea_elephant_memory.Store.{Db, Postgres, ok, ConsumptionRow, exists}
use tea_elephant_memory.Consumption.{
  Consumption, new_memory_store, effective_retention, recent, newest_first, record_row,
  record_consumption,
}
use tea_elephant_memory.Consumption.Retention.{Drink, record_all, surviving, recent-record_all}
use tea_elephant_memory.Consumption.Table.{same, record_row_lem}

-- Two users; the first event is out of retention when the third comes.
abbrev drinks : List Drink
drinks =
    record { user_id = 1; tea_id = 7; time = pos 100 }
    ∷ record { user_id = 2; tea_id = 7; time = pos 150 }
    ∷ record { user_id = 1; tea_id = 8; time = pos 200 }
    ∷ []

recent_test :
    recent 1 (pos 0) (record_all drinks (new_memory_store (pos 100)))
    ≡ record { tea_id = 8; time = pos 200 } ∷ []
unfolding recent record_all new_memory_store record_consumption sort keep ◌-ℤ◌
recent_test = refl

recent-record_all_example :
    Perm (recent 1 (pos 50) (record_all drinks (new_memory_store (pos 100)))) (
      keep
        (λ (c : Consumption). not (before c.time (pos 50)))
        (surviving 1 (effective_retention (pos 100)) drinks))
    × IsSorted newest_first (recent 1 (pos 50) (record_all drinks (new_memory_store (pos 100))))
recent-record_all_example = recent-record_all (pos 100) drinks 1 (pos 50)

abbrev server : Postgres
server = record {
  lower = λ s. s;
  like = λ p s. true;
  collates_before = bytes_lt;
  timestamptz = λ t. t;
}

abbrev two_cups : Db
two_cups = record {
  users = record { id = 1; apple_id = b'x' ∷ []; created_at = pos 1 } ∷ [];
  teas =
      record {
        id = 7;
        name = b'A' ∷ [];
        type = b't' ∷ b'e' ∷ b'a' ∷ [];
        description = none;
        created_at = pos 2;
      }
      ∷ [];
  tag_categories = [];
  tags = [];
  tea_tags = [];
  qr_records = [];
  collections = [];
  items = [];
  devices = [];
  notifications = [];
  consumptions =
      record { user_id = 1; ts = pos 100; tea_id = 7 }
      ∷ record { user_id = 1; ts = pos 150; tea_id = 7 }
      ∷ [];
  faults = [];
}

record_row_lem_example :
    (rows : List ConsumptionRow) × (record_row server (pos 100) 1 7 (pos 220) two_cups
      ≡ (ok tt, record two_cups { consumptions = rows }))
    × ((c : ConsumptionRow)
        → exists (same c) rows
          ≡ (exists (same c) two_cups.consumptions
              || same c (record { user_id = 1; ts = pos 220; tea_id = 7 }))
            && not (c.user_id == 1 && before c.ts (pos 220 -ℤ effective_retention (pos 100))))
unfolding exists
record_row_lem_example = record_row_lem server (pos 100) 1 7 (pos 220) two_cups refl refl refl
