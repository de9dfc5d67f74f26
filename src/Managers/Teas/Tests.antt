-- ===== src/Managers/Teas/Tests.antt =====
-- Instances of the theorems on the tea manager, and test runs.
use tea_elephant_memory.Prelude.{
  ◌≡◌, ◌≢◌, refl, true, false, List, [], ◌∷◌, ◌++◌, length, ltb, ◌==◌, keep, Perm, arith, pos, some,
}
use tea_elephant_memory.Domain as Common
use tea_elephant_memory.Store.{Db, ok, exists}
use tea_elephant_memory.Adapter.Teas.RoundTrip.{stored}
use tea_elephant_memory.Subscribers.{Outcome, blocked, panicked, new_subscribers, subscribe}
use tea_elephant_memory.Subscribers.Cleaning.{dead}
use tea_elephant_memory.Subscribers.Delivery.{all_listen, messages}
use tea_elephant_memory.Subscribers.Histories.{new_subscribers-IsValid, subscribe-IsValid}
use tea_elephant_memory.Subscribers.Removal.{live}
use tea_elephant_memory.Models.{from_common_tea}
use tea_elephant_memory.Managers.Teas.{
  TeaManager, new_manager, answers, waits, create, get, queue_size, Environment, round,
  takes_created, takes_deleted,
}
use tea_elephant_memory.Managers.Teas.Changes.{create-get}
use tea_elephant_memory.Managers.Teas.Histories.{
  Event, creates_tea, deletes_tea, subscribes_on_create, goes_round, happen_all, Proceeds,
  happen_all-new_manager,
}
use tea_elephant_memory.Managers.Teas.Rounds.{IsSound, round_created_lem}

abbrev empty : Db
empty = record {
  users = [];
  teas = [];
  tag_categories = [];
  tags = [];
  tea_tags = [];
  qr_records = [];
  collections = [];
  items = [];
  devices = [];
  notifications = [];
  consumptions = [];
  faults = [];
}

abbrev sencha : Common.TeaData
sencha = record { name = b'S' ∷ []; type = pos 0; description = [] }

abbrev manager : TeaManager
manager = new_manager empty

create-get_example :
    (db : Db) × (ltb (length manager.created) queue_size ≡ true
      → create 4 (pos 9) sencha manager ≡ (
        answers (ok (record { id = 4; tea_data = stored sencha })),
        record manager {
          db = db;
          created = manager.created ++ record { id = 4; tea_data = stored sencha } ∷ [];
        },
      ))
    × (ltb (length manager.created) queue_size ≡ false
        → create 4 (pos 9) sencha manager ≡ (waits, record manager { db = db }))
    × ((get 4 (record manager { db = db })).0
        ≡ answers (ok (record { id = 4; tea_data = stored sencha })))
unfolding exists new_manager
create-get_example = create-get 4 (pos 9) sencha manager refl refl

-- Everybody receives, and the context 2 is done.
abbrev everybody : Environment
everybody = record {
  on_create = λ ch. true;
  on_update = λ ch. true;
  on_delete = λ ch. true;
  is_done = λ ctx. ctx == 2;
}

abbrev history : List Event
history =
    subscribes_on_create 1
    ∷ subscribes_on_create 2
    ∷ creates_tea 4 (pos 9) sencha
    ∷ goes_round everybody takes_created
    ∷ deletes_tea 4
    ∷ goes_round everybody takes_deleted
    ∷ []

happen_all-new_manager_example :
    Proceeds (happen_all history (new_manager empty))
    × (happen_all history (new_manager empty) ≢ panicked)
happen_all-new_manager_example = happen_all-new_manager history empty

abbrev tea : Common.Tea
tea = record { id = 4; tea_data = sencha }

abbrev waiting : TeaManager
waiting = record {
  db = empty;
  create_subscribers = (subscribe 2 (subscribe 1 new_subscribers).0).0;
  update_subscribers = new_subscribers;
  delete_subscribers = new_subscribers;
  created = tea ∷ [];
  updated = [];
  deleted = [];
}

waiting-IsSound : IsSound waiting
waiting-IsSound = record {
  creates = subscribe-IsValid 2 _ (subscribe-IsValid 1 _ new_subscribers-IsValid);
  updates = new_subscribers-IsValid;
  deletes = new_subscribers-IsValid;
  created_bound = omega arith;
  updated_bound = omega arith;
  deleted_bound = omega arith;
}

round_created_lem_example :
    (all_listen everybody.on_create waiting.create_subscribers.subs ≡ true
      → (m' : TeaManager) × (round everybody takes_created waiting ≡ some (Outcome.ok m'))
        × IsSound m'
        × (m'.created ≡ [])
        × (m'.create_subscribers.received
            ≡ waiting.create_subscribers.received
              ++ messages (from_common_tea tea) waiting.create_subscribers.subs)
        × Perm m'.create_subscribers.subs
            (keep (live (dead everybody.is_done)) waiting.create_subscribers.subs))
    × (all_listen everybody.on_create waiting.create_subscribers.subs ≡ false
        → round everybody takes_created waiting ≡ some blocked)
round_created_lem_example = round_created_lem everybody waiting tea [] waiting-IsSound refl
