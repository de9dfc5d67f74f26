-- ===== src/Managers/Tags.antt =====
-- internal/managers/tag/manager.go and loop.go: the tag manager, with the queues of its events and the
-- loop that hands them to the subscribers. A method is one step, and so is a round of the loop. A
-- method that waits on a full queue has written to the storage already, and has queued what came
-- before. Of the tea manager the loop uses Get, which is the storage's ReadRecord.
pub mod Subscribers
pub mod Loop
pub mod Soundness
pub mod Sends
pub mod Rounds
pub mod Histories
pub mod Categories
mod Tests
use tea_elephant_memory.Prelude.{ℕ, Bool, true, false, Option, none, some, List, [], ◌∷◌, Bytes}
use tea_elephant_memory.Domain as Common
use tea_elephant_memory.Store.{Db, Postgres, Result, ok, err}
use tea_elephant_memory.Subscribers.{Outcome, ◌>>=◌}
use tea_elephant_memory.Adapter.{Error}
use tea_elephant_memory.Adapter.Teas.{read_record}
use tea_elephant_memory.Adapter.Tags as Storage
use tea_elephant_memory.Models.{Tea, Tag, TagCategory, from_common_tea}
use tea_elephant_memory.Managers.Teas.{Reply, answers, waits}
use tea_elephant_memory.Managers.Topics.{
  Topic, new_topic, put, put_all, subscribe_to, publish, clean,
}

-- The queues create, update and delete, those of the categories, and those of the tags of teas, each
-- with its subscribers.
pub record TagManager : Type 0 where
  pub db : Db
  pub created : Topic Common.Tag Tag
  pub updated : Topic Common.Tag Tag
  pub deleted : Topic ℕ ℕ
  pub category_created : Topic Common.TagCategory TagCategory
  pub category_updated : Topic Common.TagCategory TagCategory
  pub category_deleted : Topic ℕ ℕ
  pub tag_added : Topic ℕ Tea
  pub tag_removed : Topic ℕ Tea

pub new_manager : Db → TagManager
new_manager db = record {
  db = db;
  created = new_topic;
  updated = new_topic;
  deleted = new_topic;
  category_created = new_topic;
  category_updated = new_topic;
  category_deleted = new_topic;
  tag_added = new_topic;
  tag_removed = new_topic;
}

abbrev pub Method : Type 0 → Type 0
Method A = TagManager → Reply A × TagManager

-- The answer after a send on a queue, and the manager with the queue changed.
abbrev pub queued : {A E M : Type 0} → A → Option (Topic E M) → (Topic E M → TagManager) → Method A
queued a none set m = (waits, m)
queued a (some t) set m = (answers (ok a), set t)

pub send_category_created : Result Error Common.TagCategory → Method Common.TagCategory
send_category_created (err e) m = (answers (err e), m)
send_category_created (ok x) m =
    queued x (put x m.category_created) (λ t. record m { category_created = t }) m

unfoldable pub send_created : Result Error Common.Tag → Method Common.Tag
send_created (err e) m = (answers (err e), m)
send_created (ok x) m = queued x (put x m.created) (λ t. record m { created = t }) m

unfoldable pub send_updated : Result Error Common.Tag → Method Common.Tag
send_updated (err e) m = (answers (err e), m)
send_updated (ok x) m = queued x (put x m.updated) (λ t. record m { updated = t }) m

unfoldable pub send_deleted : ℕ → Result Error (Unit {0}) → Method (Unit {0})
send_deleted id (err e) m = (answers (err e), m)
send_deleted id (ok done) m = queued tt (put id m.deleted) (λ t. record m { deleted = t }) m

pub send_tag_added : ℕ → Result Error (Unit {0}) → Method (Unit {0})
send_tag_added id (err e) m = (answers (err e), m)
send_tag_added id (ok done) m = queued tt (put id m.tag_added) (λ t. record m { tag_added = t }) m

pub send_tag_removed : ℕ → Result Error (Unit {0}) → Method (Unit {0})
send_tag_removed id (err e) m = (answers (err e), m)
send_tag_removed id (ok done) m =
    queued tt (put id m.tag_removed) (λ t. record m { tag_removed = t }) m

pub send_category_updated : Common.TagCategory → Result Error (Unit {0}) → Method Common.TagCategory
send_category_updated res (err e) m = (answers (err e), m)
send_category_updated res (ok done) m =
    queued res (put res m.category_updated) (λ t. record m { category_updated = t }) m

pub send_category_deleted : ℕ → TagManager → Reply (Unit {0}) × TagManager
send_category_deleted id m =
    queued tt (put id m.category_deleted) (λ t. record m { category_deleted = t }) m

-- The identifiers of the removed tags first, then that of the category.
abbrev pub after_tags : ℕ → TagManager → Bool × Topic ℕ ℕ → Reply (Unit {0}) × TagManager
after_tags id m (false, t) = (waits, record m { deleted = t })
after_tags id m (true, t) = send_category_deleted id (record m { deleted = t })

pub send_all_deleted : ℕ → Result Error (List ℕ) → Method (Unit {0})
unfolding send_category_deleted
send_all_deleted id (err e) m = (answers (err e), m)
send_all_deleted id (ok tags) m = after_tags id m (put_all tags m.deleted)

unfoldable pub add_tag_to_tea : ℕ → ℕ → Method (Unit {0})
unfolding send_tag_added
add_tag_to_tea tea tag m =
    let (result, db) = Storage.add_tag_to_tea tea tag m.db in
    send_tag_added tea result (record m { db = db })

unfoldable pub delete_tag_from_tea : ℕ → ℕ → Method (Unit {0})
unfolding send_tag_removed
delete_tag_from_tea tea tag m =
    let (result, db) = Storage.delete_tag_from_tea tea tag m.db in
    send_tag_removed tea result (record m { db = db })

pub create_category : ℕ → Bytes → Method Common.TagCategory
unfolding send_category_created
create_category id name m =
    let (result, db) = Storage.create_tag_category id name m.db in
    send_category_created result (record m { db = db })

pub update_category : ℕ → Bytes → Method Common.TagCategory
unfolding send_category_updated
update_category id name m =
    let (result, db) = Storage.update_tag_category id name m.db in
    send_category_updated (record { id = id; name = name }) result (record m { db = db })

pub get_category : ℕ → Method Common.TagCategory
get_category id m =
    let (result, db) = Storage.get_tag_category id m.db in (answers result, record m { db = db })

unfoldable pub delete : ℕ → Method (Unit {0})
unfolding send_deleted
delete id m =
    let (result, db) = Storage.delete_tag id m.db in send_deleted id result (record m { db = db })

unfoldable pub get : ℕ → Method Common.Tag
get id m = let (result, db) = Storage.get_tag id m.db in (answers result, record m { db = db })

module _ (pg : Postgres) where
  pub delete_category : ℕ → Method (Unit {0})
  unfolding send_all_deleted
  delete_category id m =
      let (result, db) = Storage.delete_tag_category pg id m.db in
      send_all_deleted id result (record m { db = db })

  pub list_category : Option Bytes → Method (List Common.TagCategory)
  list_category search m =
      let (result, db) = Storage.list_tag_categories pg search m.db in
      (answers result, record m { db = db })

  unfoldable pub create : ℕ → Bytes → Bytes → ℕ → Method Common.Tag
  unfolding send_created
  create id name color category_id m =
      let (result, db) = Storage.create_tag pg id name color category_id m.db in
      send_created result (record m { db = db })

  unfoldable pub update : ℕ → Bytes → Bytes → Method Common.Tag
  unfolding send_updated
  update id name color m =
      let (result, db) = Storage.update_tag pg id name color m.db in
      send_updated result (record m { db = db })

  pub change_category : ℕ → ℕ → Method Common.Tag
  unfolding send_updated
  change_category id category_id m =
      let (result, db) = Storage.change_tag_category pg id category_id m.db in
      send_updated result (record m { db = db })

  pub list : Option Bytes → Option ℕ → Method (List Common.Tag)
  list name category_id m =
      let (result, db) = Storage.list_tags pg name category_id m.db in
      (answers result, record m { db = db })

  pub list_by_tea : ℕ → Method (List Common.Tag)
  list_by_tea id m =
      let (result, db) = Storage.list_by_tea pg id m.db in (answers result, record m { db = db })

unfoldable pub subscribe_on_create : ℕ → TagManager → TagManager × ℕ
subscribe_on_create ctx m =
    let (t, ch) = subscribe_to ctx m.created in (record m { created = t }, ch)

unfoldable pub subscribe_on_update : ℕ → TagManager → TagManager × ℕ
subscribe_on_update ctx m =
    let (t, ch) = subscribe_to ctx m.updated in (record m { updated = t }, ch)

unfoldable pub subscribe_on_delete : ℕ → TagManager → TagManager × ℕ
subscribe_on_delete ctx m =
    let (t, ch) = subscribe_to ctx m.deleted in (record m { deleted = t }, ch)

pub subscribe_on_create_category : ℕ → TagManager → TagManager × ℕ
subscribe_on_create_category ctx m =
    let (t, ch) = subscribe_to ctx m.category_created in (record m { category_created = t }, ch)

pub subscribe_on_update_category : ℕ → TagManager → TagManager × ℕ
subscribe_on_update_category ctx m =
    let (t, ch) = subscribe_to ctx m.category_updated in (record m { category_updated = t }, ch)

pub subscribe_on_delete_category : ℕ → TagManager → TagManager × ℕ
subscribe_on_delete_category ctx m =
    let (t, ch) = subscribe_to ctx m.category_deleted in (record m { category_deleted = t }, ch)

pub subscribe_on_add_tag_to_tea : ℕ → TagManager → TagManager × ℕ
subscribe_on_add_tag_to_tea ctx m =
    let (t, ch) = subscribe_to ctx m.tag_added in (record m { tag_added = t }, ch)

pub subscribe_on_delete_tag_to_tea : ℕ → TagManager → TagManager × ℕ
subscribe_on_delete_tag_to_tea ctx m =
    let (t, ch) = subscribe_to ctx m.tag_removed in (record m { tag_removed = t }, ch)
