-- ===== src/Alerter/Tests.antt =====
-- An instance of the theorem on a run of the alerter, and a test run.
use tea_elephant_memory.Prelude.{◌≡◌, refl, true, none, [], ◌∷◌, ◌++◌, pos}
use tea_elephant_memory.Store.{Db, ok}
use tea_elephant_memory.Alerter.{run}
use tea_elephant_memory.Alerter.Runs.{due, run_lem}

-- One user, whose collection holds a record that expired at 100 and one that expires at 300.
abbrev pantry : Db
pantry = record {
  users = record { id = 5; apple_id = b'x' ∷ []; created_at = pos 1 } ∷ [];
  teas =
      record {
        id = 7;
        name = b'A' ∷ [];
        type = b't' ∷ b'e' ∷ b'a' ∷ [];
        description = none;
        created_at = pos 2;
      }
      ∷ [];
  tag_categories = [];
  tags = [];
  tea_tags = [];
  qr_records =
      record {
        id = 8;
        tea_id = 7;
        boiling_temp = pos 95;
        expiration_date = pos 100;
        created_at = pos 3;
      }
      ∷ record {
        id = 9;
        tea_id = 7;
        boiling_temp = pos 80;
        expiration_date = pos 300;
        created_at = pos 4;
      }
      ∷ [];
  collections = record { id = 3; user_id = 5; name = b'c' ∷ []; created_at = pos 5 } ∷ [];
  items = record { collection_id = 3; qr_id = 8 } ∷ record { collection_id = 3; qr_id = 9 } ∷ [];
  devices = [];
  notifications = [];
  consumptions = [];
  faults = [];
}

run_lem_example :
    run (λ alert. true) (pos 200) (record { db = pantry; sent = [] })
    ≡ (ok tt, record { db = pantry; sent = [] ++ due (pos 200) pantry })
run_lem_example = run_lem (λ alert. true) (pos 200) pantry refl (λ alert. refl) []
