-- ===== src/Managers/Tags/Tests.antt =====
-- Instances of the theorems on the tag manager, and test runs.
use tea_elephant_memory.Prelude.{
  ℕ, ◌+◌, ◌<◌, ◌≤◌, ◌≡◌, ◌≢◌, refl, true, false, List, [], ◌∷◌, ◌++◌, map, keep, take, length, ◌==◌,
  Perm, some, none, arith,
}
use tea_elephant_memory.Domain as Common
use tea_elephant_memory.Store.{Db, Postgres, ok, TagRow, TagCategoryRow, find}
use tea_elephant_memory.Subscribers.{Outcome, panicked, new_subscribers, subscribe}
use tea_elephant_memory.Subscribers.Histories.{new_subscribers-IsValid, subscribe-IsValid}
use tea_elephant_memory.Subscribers.Delivery.{all_listen, messages}
use tea_elephant_memory.Adapter.{category_of_row}
use tea_elephant_memory.Adapter.Tags.Removal.{without_category, without_tags, in_category}
use tea_elephant_memory.Managers.Teas.{answers, waits}
use tea_elephant_memory.Managers.Topics.{chan_size}
use tea_elephant_memory.Managers.Tags.{TagManager, new_manager, delete_category}
use tea_elephant_memory.Managers.Tags.Loop.{
  Environment, takes_created, takes_category_deleted, round, model_of_tag,
}
use tea_elephant_memory.Managers.Tags.Soundness.{
  IsSound, Proceeds, new_manager-IsSound, with_created,
}
use tea_elephant_memory.Managers.Tags.Histories.{
  Event, creates_category, creates_tag, deletes_category, subscribes, goes_round, happen_all,
  tag_history_sound,
}
use tea_elephant_memory.Managers.Tags.Categories.{delete_category_lem, round_created_tag_lem}

abbrev postgres : Postgres
postgres = record {
  lower = λ s. s;
  like = λ pattern s. false;
  collates_before = λ s t. false;
  timestamptz = λ t. t;
}

abbrev database : Db
database = record {
  users = [];
  teas = [];
  tag_categories = record { id = 7; name = b'k' ∷ [] } ∷ [];
  tags =
      record { id = 11; name = b's' ∷ []; color = []; category_id = 7 }
      ∷ record { id = 12; name = b't' ∷ []; color = []; category_id = 7 }
      ∷ [];
  tea_tags = [];
  qr_records = [];
  collections = [];
  items = [];
  devices = [];
  notifications = [];
  consumptions = [];
  faults = [];
}

abbrev manager : TagManager
manager = new_manager database

-- Everybody receives, and the context 2 is done.
abbrev everybody : Environment
everybody = record { hears = λ c ch. true; is_done = λ ctx. ctx == 2 }

abbrev history : List Event
history =
    subscribes takes_created 1
    ∷ subscribes takes_category_deleted 2
    ∷ creates_category 8 (b'l' ∷ [])
    ∷ creates_tag 13 (b'u' ∷ []) [] 8
    ∷ deletes_category 7
    ∷ goes_round everybody takes_created
    ∷ goes_round everybody takes_category_deleted
    ∷ []

tag_history_sound_example :
    Proceeds (happen_all postgres history (new_manager database))
    × (happen_all postgres history (new_manager database) ≢ panicked)
tag_history_sound_example = tag_history_sound postgres history database

delete_category_lem_example :
    (removed : List ℕ) × Perm removed
      (map (λ (t : TagRow). t.id) (keep (in_category 7) manager.db.tags))
    × (length manager.deleted.queue + length removed ≤ chan_size
        → length manager.category_deleted.queue < chan_size
        → delete_category postgres 7 manager ≡ (
          answers (ok tt),
          record manager {
            db = without_category 7 (without_tags 7 manager.db);
            deleted = record manager.deleted { queue = manager.deleted.queue ++ removed };
            category_deleted = record manager.category_deleted {
              queue = manager.category_deleted.queue ++ 7 ∷ [];
            };
          },
        ))
    × ((room : ℕ)
        → length manager.deleted.queue + room ≡ chan_size
        → room < length removed
        → delete_category postgres 7 manager ≡ (
          waits,
          record manager {
            db = without_category 7 (without_tags 7 manager.db);
            deleted = record manager.deleted { queue = manager.deleted.queue ++ take room removed };
          },
        ))
unfolding new_manager
delete_category_lem_example = delete_category_lem postgres 7 manager refl

abbrev fresh : Common.Tag
fresh = record { id = 13; tag_data = record { name = b'u' ∷ []; color = []; category_id = 7 } }

abbrev waiting : TagManager
waiting = record manager {
  created = record { queue = fresh ∷ []; subscribers = (subscribe 1 new_subscribers).0 };
}

waiting-IsSound : IsSound waiting
unfolding new_manager
waiting-IsSound =
    with_created (new_manager-IsSound database) waiting.created
      (record { valid = subscribe-IsValid 1 _ new_subscribers-IsValid; bound = omega arith })

round_created_tag_lem_example :
    ((c : TagCategoryRow)
      → find (λ (c : TagCategoryRow). c.id == 7) waiting.db.tag_categories ≡ some c
      → (m' : TagManager) × (round everybody takes_created waiting ≡ some (Outcome.ok m'))
        × IsSound m'
        × (m'.created.queue ≡ [])
        × (m'.created.subscribers.received
            ≡ waiting.created.subscribers.received
              ++ messages
                  (model_of_tag fresh (category_of_row c))
                  waiting.created.subscribers.subs))
    × (find (λ (c : TagCategoryRow). c.id == 7) waiting.db.tag_categories ≡ none
        → (m' : TagManager) × (round everybody takes_created waiting ≡ some (Outcome.ok m'))
          × IsSound m'
          × (m'.created.queue ≡ [])
          × (m'.created.subscribers.received ≡ waiting.created.subscribers.received))
unfolding new_manager all_listen new_subscribers subscribe
round_created_tag_lem_example =
    round_created_tag_lem everybody waiting fresh [] waiting-IsSound refl refl refl
