-- ===== src/Managers/Tags/Categories.antt =====
-- What deleting a category, and moving a tag, put on the queues; what subscribers are told of a new tag.
use tea_elephant_memory.Prelude.{
  ℕ, ◌+◌, ◌<◌, ◌≤◌, ◌≡◌, refl, inl, inr, true, none, some, List, [], ◌∷◌, ◌++◌, map, keep, take,
  length, ◌==◌, Perm, arith, ◌∙◌,
}
use tea_elephant_memory.Domain as Common
use tea_elephant_memory.Store.{Postgres, ok, TagRow, TagCategoryRow, find}
use tea_elephant_memory.Store.Rows.{statement_healthy}
use tea_elephant_memory.Store.Tags as Statements
use tea_elephant_memory.Subscribers.{Outcome}
use tea_elephant_memory.Subscribers.Delivery.{all_listen, messages}
use tea_elephant_memory.Adapter.{category_of_row}
use tea_elephant_memory.Adapter.Tags as Storage
use tea_elephant_memory.Adapter.Tags.Removal.{
  delete_tag_category_lem, without_category, without_tags, in_category,
}
use tea_elephant_memory.Managers.Teas.{answers, waits}
use tea_elephant_memory.Managers.Topics.{
  put_all_room, put_all_full, put_cases, chan_size, publish_lem, rest-IsFit,
}
use tea_elephant_memory.Managers.Tags.{
  TagManager, delete_category, send_all_deleted, send_category_deleted,
}
use tea_elephant_memory.Managers.Tags.Loop.{
  Environment, takes_created, round, handle_create_tag, publish_created, model_of_tag,
}
use tea_elephant_memory.Managers.Tags.Soundness.{IsSound, with_created}
use tea_elephant_memory.Managers.Tags.Rounds.{clean_all_lem}

module _ (pg : Postgres) where
  -- On a healthy connection deleting a category takes the category and its tags out of the storage. If the
  -- queues have room for the identifiers of exactly these tags, in some order, and for that of the
  -- category, they come last on them and the call answers. If the queue of deleted tags has too little
  -- room, it is filled by the first of them, the call waits, and no event of the category is queued:
  -- the storage has lost both already.
  pub delete_category_lem :
      (id : ℕ) (m : TagManager)
      → m.db.faults ≡ []
      → (removed : List ℕ) × Perm removed
          (map (λ (t : TagRow). t.id) (keep (in_category id) m.db.tags))
        × (length m.deleted.queue + length removed ≤ chan_size
            → length m.category_deleted.queue < chan_size
            → delete_category pg id m ≡ (
              answers (ok tt),
              record m {
                db = without_category id (without_tags id m.db);
                deleted = record m.deleted { queue = m.deleted.queue ++ removed };
                category_deleted = record m.category_deleted {
                  queue = m.category_deleted.queue ++ id ∷ [];
                };
              },
            ))
        × ((room : ℕ)
            → length m.deleted.queue + room ≡ chan_size
            → room < length removed
            → delete_category pg id m ≡ (
              waits,
              record m {
                db = without_category id (without_tags id m.db);
                deleted = record m.deleted { queue = m.deleted.queue ++ take room removed };
              },
            ))
  unfolding delete_category send_all_deleted send_category_deleted
  delete_category_lem id m healthy =
      let (removed, same, ran) = delete_tag_category_lem pg id m.db healthy in
      (
        removed,
        same,
        λ fits free. elim (put_cases id m.category_deleted) [
          | inl (done, _, _) ↦ rw (ran, put_all_room removed m.deleted fits, done) refl
          | inr (full, over) ↦ absurd (omega arith)
        ],
        λ room exact little. rw (ran, put_all_full room removed m.deleted exact little) refl,
      )

-- On a healthy connection, on a sound manager whose queue of created tags starts with a tag, a round that
-- takes it ends with a sound manager and the tag off the queue, where every subscriber receives: if
-- the tag's category is stored by then, each subscriber to created tags gets the tag with the
-- category as it is stored; if it is not, they get nothing in this round.
pub round_created_tag_lem :
    (env : Environment) (m : TagManager) (tag : Common.Tag) (rest : List Common.Tag)
    → IsSound m
    → m.db.faults ≡ []
    → m.created.queue ≡ tag ∷ rest
    → all_listen (env.hears takes_created) m.created.subscribers.subs ≡ true
    → ((c : TagCategoryRow)
        → find (λ (c : TagCategoryRow). c.id == tag.category_id) m.db.tag_categories ≡ some c
        → (m' : TagManager) × (round env takes_created m ≡ some (Outcome.ok m'))
          × IsSound m'
          × (m'.created.queue ≡ rest)
          × (m'.created.subscribers.received
              ≡ m.created.subscribers.received
                ++ messages (model_of_tag tag (category_of_row c)) m.created.subscribers.subs))
      × (find (λ (c : TagCategoryRow). c.id == tag.category_id) m.db.tag_categories ≡ none
          → (m' : TagManager) × (round env takes_created m ≡ some (Outcome.ok m'))
            × IsSound m'
            × (m'.created.queue ≡ rest)
            × (m'.created.subscribers.received ≡ m.created.subscribers.received))
unfolding round handle_create_tag publish_created Storage.get_tag_category
    Statements.get_tag_category
round_created_tag_lem env m tag rest s healthy queue heard =
    let left = record m { created = record m.created { queue = rest } } in
    let s₁ : IsSound left =
      with_created s (record m.created { queue = rest })
        (rest-IsFit m.created tag rest s.created_fit queue) in
    (
      λ c known.
          let (t, sent, fit, same_queue, _, received) =
            (publish_lem (env.hears takes_created) (model_of_tag tag (category_of_row c))
                left.created s₁.created_fit).0
              heard in
          let (m', ran, s', _, q, r) =
            clean_all_lem env (record left { created = t }) (with_created s₁ t fit) in
          (
            m',
            rw (queue, statement_healthy _ m.db healthy, known, sent, ran) refl,
            s',
            q ∙ same_queue,
            r ∙ received,
          ),
      λ unknown.
          let (m', ran, s', _, q, r) = clean_all_lem env left s₁ in
          (m', rw (queue, statement_healthy _ m.db healthy, unknown, ran) refl, s', q, r),
    )
