-- ===== src/Managers/Tags/Rounds.antt =====
-- A round of the loop of the tag manager, on a sound manager.
use tea_elephant_memory.Prelude.{
  ◌≡◌, refl, inr, Bool, true, false, Option, none, some, List, [], ◌∷◌,
}
use tea_elephant_memory.Domain as Common
use tea_elephant_memory.Store.{Result, ok, err}
use tea_elephant_memory.Subscribers.{Outcome, ◌>>=◌}
use tea_elephant_memory.Adapter.{Error}
use tea_elephant_memory.Adapter.Teas.{read_record}
use tea_elephant_memory.Adapter.Tags as Storage
use tea_elephant_memory.Managers.Topics.{Topic, IsFit, rest-IsFit, clean_lem}
use tea_elephant_memory.Managers.Tags.{TagManager}
use tea_elephant_memory.Managers.Tags.Loop.{
  Case, Environment, takes_created, takes_updated, takes_deleted, takes_category_created,
  takes_category_updated, takes_category_deleted, takes_tag_added, takes_tag_removed, clean_all,
  publish_created, publish_updated, publish_tea, handle_create_tag, handle_update_tag,
  handle_tea_tag_change, send_deleted_to_all, send_category_created_to_all,
  send_category_updated_to_all, send_category_deleted_to_all, take_first, round,
}
use tea_elephant_memory.Managers.Tags.Soundness.{
  IsSound, with_db, with_created, with_updated, with_deleted, with_category_created,
  with_category_updated, with_category_deleted, with_tag_added, with_tag_removed, Proceeds,
  bind-Proceeds, publish-Proceeds,
}

-- A sound manager is cleaned without a panic; the queue of created tags and what their subscribers received
-- stay.
pub clean_all_lem :
    (env : Environment) (m : TagManager)
    → IsSound m
    → (m' : TagManager) × (clean_all env m ≡ Outcome.ok m')
      × IsSound m'
      × (m'.db ≡ m.db)
      × (m'.created.queue ≡ m.created.queue)
      × (m'.created.subscribers.received ≡ m.created.subscribers.received)
unfolding clean_all
clean_all_lem env m s =
    let (created, created_ran, created_fit, same_queue, same_received, _) =
      clean_lem env.is_done m.created s.created_fit in
    let (updated, updated_ran, updated_fit, _, _, _) =
      clean_lem env.is_done m.updated s.updated_fit in
    let (deleted, deleted_ran, deleted_fit, _, _, _) =
      clean_lem env.is_done m.deleted s.deleted_fit in
    let (category_created, category_created_ran, category_created_fit, _, _, _) =
      clean_lem env.is_done m.category_created s.category_created_fit in
    let (category_updated, category_updated_ran, category_updated_fit, _, _, _) =
      clean_lem env.is_done m.category_updated s.category_updated_fit in
    let (category_deleted, category_deleted_ran, category_deleted_fit, _, _, _) =
      clean_lem env.is_done m.category_deleted s.category_deleted_fit in
    let (tag_added, tag_added_ran, tag_added_fit, _, _, _) =
      clean_lem env.is_done m.tag_added s.tag_added_fit in
    let (tag_removed, tag_removed_ran, tag_removed_fit, _, _, _) =
      clean_lem env.is_done m.tag_removed s.tag_removed_fit in
    (
      record m {
        created = created;
        updated = updated;
        deleted = deleted;
        category_created = category_created;
        category_updated = category_updated;
        category_deleted = category_deleted;
        tag_added = tag_added;
        tag_removed = tag_removed;
      },
      rw
          (
            created_ran, updated_ran, deleted_ran, category_created_ran, category_updated_ran,
            category_deleted_ran, tag_added_ran, tag_removed_ran,
          )
          refl,
      record {
        created_fit = created_fit;
        updated_fit = updated_fit;
        deleted_fit = deleted_fit;
        category_created_fit = category_created_fit;
        category_updated_fit = category_updated_fit;
        category_deleted_fit = category_deleted_fit;
        tag_added_fit = tag_added_fit;
        tag_removed_fit = tag_removed_fit;
      },
      refl,
      same_queue,
      same_received,
    )

clean_all-Proceeds : (env : Environment) (m : TagManager) → IsSound m → Proceeds (clean_all env m)
clean_all-Proceeds env m s =
    let cleaned = clean_all_lem env m s in inr (cleaned.0, cleaned.1, cleaned.2)

publish_created-Proceeds :
    (env : Environment) (tag : Common.Tag) (r : Result Error Common.TagCategory) (m : TagManager)
    → IsSound m
    → Proceeds (publish_created env tag r m)
unfolding publish_created
publish_created-Proceeds env tag (err e) m s = inr (m, refl, s)
publish_created-Proceeds env tag (ok cat) m s =
    publish-Proceeds (env.hears takes_created) _ m.created _ s.created_fit (with_created s)

publish_updated-Proceeds :
    (env : Environment) (tag : Common.Tag) (r : Result Error Common.TagCategory) (m : TagManager)
    → IsSound m
    → Proceeds (publish_updated env tag r m)
unfolding publish_updated
publish_updated-Proceeds env tag (err e) m s = inr (m, refl, s)
publish_updated-Proceeds env tag (ok cat) m s =
    publish-Proceeds (env.hears takes_updated) _ m.updated _ s.updated_fit (with_updated s)

publish_tea-Proceeds :
    (env : Environment) (added : Bool) (r : Result Error Common.Tea) (m : TagManager)
    → IsSound m
    → Proceeds (publish_tea env added r m)
unfolding publish_tea
publish_tea-Proceeds env added (err e) m s = inr (m, refl, s)
publish_tea-Proceeds env true (ok tea) m s =
    publish-Proceeds (env.hears takes_tag_added) _ m.tag_added _ s.tag_added_fit (with_tag_added s)
publish_tea-Proceeds env false (ok tea) m s =
    publish-Proceeds (env.hears takes_tag_removed) _ m.tag_removed _ s.tag_removed_fit
      (with_tag_removed s)

-- An event is handled and the collections are cleaned.
handled-Proceeds :
    (env : Environment) (o : Outcome TagManager) → Proceeds o → Proceeds (o >>= clean_all env)
handled-Proceeds env o p = bind-Proceeds o (clean_all env) p (clean_all-Proceeds env)

-- A round whose queue is empty does not happen.
abbrev pub after_round : TagManager → Option (Outcome TagManager) → Outcome TagManager
after_round m none = Outcome.ok m
after_round m (some o) = o

-- What is left of a sound manager when the case takes an event is sound, and then so is what the handler
-- leaves.
take_first-Proceeds :
    {E M : Type 0} (env : Environment) (t : Topic E M) (queue : List E) (m : TagManager)
    (set : List E → TagManager) (handle : E → TagManager → Outcome TagManager)
    → IsSound m
    → IsFit t
    → t.queue ≡ queue
    → ((rest : List E) → IsFit (record t { queue = rest }) → IsSound (set rest))
    → ((e : E) (m' : TagManager) → IsSound m' → Proceeds (handle e m'))
    → Proceeds (after_round m (take_first queue set handle (clean_all env)))
take_first-Proceeds env t [] m set handle s fit first k l = inr (m, refl, s)
take_first-Proceeds env t (e ∷ rest) m set handle s fit first k l =
    handled-Proceeds env (handle e (set rest))
      (l e (set rest) (k rest (rest-IsFit t e rest fit first)))

pub round-Proceeds :
    (env : Environment) (c : Case) (m : TagManager)
    → IsSound m
    → Proceeds (after_round m (round env c m))
unfolding round handle_create_tag handle_update_tag handle_tea_tag_change send_deleted_to_all
    send_category_created_to_all send_category_updated_to_all send_category_deleted_to_all
round-Proceeds env takes_created m s =
    take_first-Proceeds env m.created m.created.queue m _ _ s s.created_fit refl
      (λ rest. with_created s (record m.created { queue = rest }))
      (λ tag m' s'.
        publish_created-Proceeds env tag (Storage.get_tag_category tag.category_id m'.db).0 _
          (with_db s' _))
round-Proceeds env takes_updated m s =
    take_first-Proceeds env m.updated m.updated.queue m _ _ s s.updated_fit refl
      (λ rest. with_updated s (record m.updated { queue = rest }))
      (λ tag m' s'.
        publish_updated-Proceeds env tag (Storage.get_tag_category tag.category_id m'.db).0 _
          (with_db s' _))
round-Proceeds env takes_deleted m s =
    take_first-Proceeds env m.deleted m.deleted.queue m _ _ s s.deleted_fit refl
      (λ rest. with_deleted s (record m.deleted { queue = rest }))
      (λ x m' s'.
        publish-Proceeds (env.hears takes_deleted) _ m'.deleted _ s'.deleted_fit (with_deleted s'))
round-Proceeds env takes_category_created m s =
    take_first-Proceeds env m.category_created m.category_created.queue m _ _ s
      s.category_created_fit refl
      (λ rest. with_category_created s (record m.category_created { queue = rest }))
      (λ x m' s'.
        publish-Proceeds (env.hears takes_category_created) _ m'.category_created _
          s'.category_created_fit (with_category_created s'))
round-Proceeds env takes_category_updated m s =
    take_first-Proceeds env m.category_updated m.category_updated.queue m _ _ s
      s.category_updated_fit refl
      (λ rest. with_category_updated s (record m.category_updated { queue = rest }))
      (λ x m' s'.
        publish-Proceeds (env.hears takes_category_updated) _ m'.category_updated _
          s'.category_updated_fit (with_category_updated s'))
round-Proceeds env takes_category_deleted m s =
    take_first-Proceeds env m.category_deleted m.category_deleted.queue m _ _ s
      s.category_deleted_fit refl
      (λ rest. with_category_deleted s (record m.category_deleted { queue = rest }))
      (λ x m' s'.
        publish-Proceeds (env.hears takes_category_deleted) _ m'.category_deleted _
          s'.category_deleted_fit (with_category_deleted s'))
round-Proceeds env takes_tag_added m s =
    take_first-Proceeds env m.tag_added m.tag_added.queue m _ _ s s.tag_added_fit refl
      (λ rest. with_tag_added s (record m.tag_added { queue = rest }))
      (λ id m' s'. publish_tea-Proceeds env true (read_record id m'.db).0 _ (with_db s' _))
round-Proceeds env takes_tag_removed m s =
    take_first-Proceeds env m.tag_removed m.tag_removed.queue m _ _ s s.tag_removed_fit refl
      (λ rest. with_tag_removed s (record m.tag_removed { queue = rest }))
      (λ id m' s'. publish_tea-Proceeds env false (read_record id m'.db).0 _ (with_db s' _))
