-- ===== src/Managers/Tags/Loop.antt =====
-- internal/managers/tag/loop.go: a round of the loop of the tag manager.
use tea_elephant_memory.Prelude.{ℕ, Bool, true, false, Option, none, some, List, [], ◌∷◌}
use tea_elephant_memory.Domain as Common
use tea_elephant_memory.Store.{Result, ok, err}
use tea_elephant_memory.Subscribers.{Outcome, ◌>>=◌}
use tea_elephant_memory.Adapter.{Error}
use tea_elephant_memory.Adapter.Teas.{read_record}
use tea_elephant_memory.Adapter.Tags as Storage
use tea_elephant_memory.Models.{Tag, TagCategory, from_common_tea}
use tea_elephant_memory.Managers.Topics.{publish, clean}
use tea_elephant_memory.Managers.Tags.{TagManager}

-- The case that the select statement takes.
pub data Case : Type 0 where
  takes_created : Case
  takes_updated : Case
  takes_deleted : Case
  takes_category_created : Case
  takes_category_updated : Case
  takes_category_deleted : Case
  takes_tag_added : Case
  takes_tag_removed : Case

-- Who receives, on the channels of each case, and which contexts are done, during a round.
pub record Environment : Type 0 where
  pub hears : Case → ℕ → Bool
  pub is_done : ℕ → Bool

unfoldable pub clean_all : Environment → TagManager → Outcome TagManager
clean_all env m = do
  new_category_created ← clean env.is_done m.category_created
  new_category_updated ← clean env.is_done m.category_updated
  new_category_deleted ← clean env.is_done m.category_deleted
  new_deleted ← clean env.is_done m.deleted
  new_created ← clean env.is_done m.created
  new_updated ← clean env.is_done m.updated
  new_tag_added ← clean env.is_done m.tag_added
  new_tag_removed ← clean env.is_done m.tag_removed
  Outcome.ok (record m {
    created = new_created;
    updated = new_updated;
    deleted = new_deleted;
    category_created = new_category_created;
    category_updated = new_category_updated;
    category_deleted = new_category_deleted;
    tag_added = new_tag_added;
    tag_removed = new_tag_removed;
  })

pub model_of_category : Common.TagCategory → TagCategory
model_of_category c = record { id = c.id; name = c.name }

pub model_of_tag : Common.Tag → Common.TagCategory → Tag
unfolding model_of_category
model_of_tag tag cat = record {
  id = tag.id;
  name = tag.name;
  color = tag.color;
  category = model_of_category cat;
}

-- An error is logged, and the event is dropped.
unfoldable pub publish_created :
    Environment → Common.Tag → Result Error Common.TagCategory → TagManager → Outcome TagManager
unfolding model_of_tag
publish_created env tag (err e) m = Outcome.ok m
publish_created env tag (ok cat) m = do
  t ← publish (env.hears takes_created) (model_of_tag tag cat) m.created
  Outcome.ok (record m { created = t })

unfoldable pub handle_create_tag : Environment → Common.Tag → TagManager → Outcome TagManager
unfolding publish_created
handle_create_tag env tag m =
    let (result, db) = Storage.get_tag_category tag.category_id m.db in
    publish_created env tag result (record m { db = db })

unfoldable pub publish_updated :
    Environment → Common.Tag → Result Error Common.TagCategory → TagManager → Outcome TagManager
unfolding model_of_tag
publish_updated env tag (err e) m = Outcome.ok m
publish_updated env tag (ok cat) m = do
  t ← publish (env.hears takes_updated) (model_of_tag tag cat) m.updated
  Outcome.ok (record m { updated = t })

unfoldable pub handle_update_tag : Environment → Common.Tag → TagManager → Outcome TagManager
unfolding publish_updated
handle_update_tag env tag m =
    let (result, db) = Storage.get_tag_category tag.category_id m.db in
    publish_updated env tag result (record m { db = db })

unfoldable pub publish_tea :
    Environment → Bool → Result Error Common.Tea → TagManager → Outcome TagManager
publish_tea env added (err e) m = Outcome.ok m
publish_tea env true (ok tea) m = do
  t ← publish (env.hears takes_tag_added) (from_common_tea tea) m.tag_added
  Outcome.ok (record m { tag_added = t })
publish_tea env false (ok tea) m = do
  t ← publish (env.hears takes_tag_removed) (from_common_tea tea) m.tag_removed
  Outcome.ok (record m { tag_removed = t })

unfoldable pub handle_tea_tag_change : Environment → ℕ → Bool → TagManager → Outcome TagManager
unfolding publish_tea
handle_tea_tag_change env id added m =
    let (result, db) = read_record id m.db in publish_tea env added result (record m { db = db })

unfoldable pub send_deleted_to_all : Environment → ℕ → TagManager → Outcome TagManager
send_deleted_to_all env x m = do
  t ← publish (env.hears takes_deleted) x m.deleted
  Outcome.ok (record m { deleted = t })

unfoldable pub send_category_created_to_all :
    Environment → Common.TagCategory → TagManager → Outcome TagManager
unfolding model_of_category
send_category_created_to_all env x m = do
  t ← publish (env.hears takes_category_created) (model_of_category x) m.category_created
  Outcome.ok (record m { category_created = t })

unfoldable pub send_category_updated_to_all :
    Environment → Common.TagCategory → TagManager → Outcome TagManager
unfolding model_of_category
send_category_updated_to_all env x m = do
  t ← publish (env.hears takes_category_updated) (model_of_category x) m.category_updated
  Outcome.ok (record m { category_updated = t })

unfoldable pub send_category_deleted_to_all : Environment → ℕ → TagManager → Outcome TagManager
send_category_deleted_to_all env x m = do
  t ← publish (env.hears takes_category_deleted) x m.category_deleted
  Outcome.ok (record m { category_deleted = t })

-- The first event leaves the queue and is handled, then every collection is cleaned; a case whose queue
-- is empty is not taken.
abbrev pub take_first :
    {E : Type 0}
    → List E
    → (List E → TagManager)
    → (E → TagManager → Outcome TagManager)
    → (TagManager → Outcome TagManager)
    → Option (Outcome TagManager)
take_first [] set handle after = none
take_first (e ∷ rest) set handle after = some (handle e (set rest) >>= after)

unfoldable pub round : Environment → Case → TagManager → Option (Outcome TagManager)
unfolding clean_all handle_create_tag handle_update_tag handle_tea_tag_change send_deleted_to_all
    send_category_created_to_all send_category_updated_to_all send_category_deleted_to_all
round env takes_created m =
    take_first m.created.queue (λ rest. record m { created = record m.created { queue = rest } })
      (handle_create_tag env) (clean_all env)
round env takes_updated m =
    take_first m.updated.queue (λ rest. record m { updated = record m.updated { queue = rest } })
      (handle_update_tag env) (clean_all env)
round env takes_deleted m =
    take_first m.deleted.queue (λ rest. record m { deleted = record m.deleted { queue = rest } })
      (send_deleted_to_all env) (clean_all env)
round env takes_category_created m =
    take_first m.category_created.queue
      (λ rest. record m { category_created = record m.category_created { queue = rest } })
      (send_category_created_to_all env) (clean_all env)
round env takes_category_updated m =
    take_first m.category_updated.queue
      (λ rest. record m { category_updated = record m.category_updated { queue = rest } })
      (send_category_updated_to_all env) (clean_all env)
round env takes_category_deleted m =
    take_first m.category_deleted.queue
      (λ rest. record m { category_deleted = record m.category_deleted { queue = rest } })
      (send_category_deleted_to_all env) (clean_all env)
round env takes_tag_added m =
    take_first m.tag_added.queue
      (λ rest. record m { tag_added = record m.tag_added { queue = rest } })
      (λ id. handle_tea_tag_change env id true) (clean_all env)
round env takes_tag_removed m =
    take_first m.tag_removed.queue
      (λ rest. record m { tag_removed = record m.tag_removed { queue = rest } })
      (λ id. handle_tea_tag_change env id false) (clean_all env)
