-- ===== src/Managers/Tags/Soundness.antt =====
-- Soundness of the tag manager: every queue is within its capacity, and the channels of every collection
-- are distinct and open. What the methods and the rounds do to it.
use tea_elephant_memory.Prelude.{ℕ, ◌≡◌, refl, ◌⊎◌, inl, inr, Bool, Bool-cases}
use tea_elephant_memory.Domain as Common
use tea_elephant_memory.Store.{Db}
use tea_elephant_memory.Subscribers.{Outcome, blocked, ◌>>=◌}
use tea_elephant_memory.Subscribers.Delivery.{all_listen}
use tea_elephant_memory.Models.{Tea, Tag, TagCategory}
use tea_elephant_memory.Managers.Topics.{
  Topic, IsFit, new_topic-IsFit, put, grown, put_cases, publish, publish_lem,
}
use tea_elephant_memory.Managers.Tags.{TagManager, new_manager, queued}

pub record IsSound (m : TagManager) : Type 0 where
  pub created_fit : IsFit m.created
  pub updated_fit : IsFit m.updated
  pub deleted_fit : IsFit m.deleted
  pub category_created_fit : IsFit m.category_created
  pub category_updated_fit : IsFit m.category_updated
  pub category_deleted_fit : IsFit m.category_deleted
  pub tag_added_fit : IsFit m.tag_added
  pub tag_removed_fit : IsFit m.tag_removed

module _ {m : TagManager} (s : IsSound m) where
  pub with_db : (db : Db) → IsSound (record m { db = db })
  with_db db = record {
    created_fit = s.created_fit;
    updated_fit = s.updated_fit;
    deleted_fit = s.deleted_fit;
    category_created_fit = s.category_created_fit;
    category_updated_fit = s.category_updated_fit;
    category_deleted_fit = s.category_deleted_fit;
    tag_added_fit = s.tag_added_fit;
    tag_removed_fit = s.tag_removed_fit;
  }

  pub with_created : (t : Topic Common.Tag Tag) (fit : IsFit t) → IsSound (record m { created = t })
  with_created t fit = record {
    created_fit = fit;
    updated_fit = s.updated_fit;
    deleted_fit = s.deleted_fit;
    category_created_fit = s.category_created_fit;
    category_updated_fit = s.category_updated_fit;
    category_deleted_fit = s.category_deleted_fit;
    tag_added_fit = s.tag_added_fit;
    tag_removed_fit = s.tag_removed_fit;
  }

  pub with_updated : (t : Topic Common.Tag Tag) (fit : IsFit t) → IsSound (record m { updated = t })
  with_updated t fit = record {
    created_fit = s.created_fit;
    updated_fit = fit;
    deleted_fit = s.deleted_fit;
    category_created_fit = s.category_created_fit;
    category_updated_fit = s.category_updated_fit;
    category_deleted_fit = s.category_deleted_fit;
    tag_added_fit = s.tag_added_fit;
    tag_removed_fit = s.tag_removed_fit;
  }

  pub with_deleted : (t : Topic ℕ ℕ) (fit : IsFit t) → IsSound (record m { deleted = t })
  with_deleted t fit = record {
    created_fit = s.created_fit;
    updated_fit = s.updated_fit;
    deleted_fit = fit;
    category_created_fit = s.category_created_fit;
    category_updated_fit = s.category_updated_fit;
    category_deleted_fit = s.category_deleted_fit;
    tag_added_fit = s.tag_added_fit;
    tag_removed_fit = s.tag_removed_fit;
  }

  pub with_category_created :
      (t : Topic Common.TagCategory TagCategory) (fit : IsFit t)
      → IsSound (record m { category_created = t })
  with_category_created t fit = record {
    created_fit = s.created_fit;
    updated_fit = s.updated_fit;
    deleted_fit = s.deleted_fit;
    category_created_fit = fit;
    category_updated_fit = s.category_updated_fit;
    category_deleted_fit = s.category_deleted_fit;
    tag_added_fit = s.tag_added_fit;
    tag_removed_fit = s.tag_removed_fit;
  }

  pub with_category_updated :
      (t : Topic Common.TagCategory TagCategory) (fit : IsFit t)
      → IsSound (record m { category_updated = t })
  with_category_updated t fit = record {
    created_fit = s.created_fit;
    updated_fit = s.updated_fit;
    deleted_fit = s.deleted_fit;
    category_created_fit = s.category_created_fit;
    category_updated_fit = fit;
    category_deleted_fit = s.category_deleted_fit;
    tag_added_fit = s.tag_added_fit;
    tag_removed_fit = s.tag_removed_fit;
  }

  pub with_category_deleted :
      (t : Topic ℕ ℕ) (fit : IsFit t) → IsSound (record m { category_deleted = t })
  with_category_deleted t fit = record {
    created_fit = s.created_fit;
    updated_fit = s.updated_fit;
    deleted_fit = s.deleted_fit;
    category_created_fit = s.category_created_fit;
    category_updated_fit = s.category_updated_fit;
    category_deleted_fit = fit;
    tag_added_fit = s.tag_added_fit;
    tag_removed_fit = s.tag_removed_fit;
  }

  pub with_tag_added : (t : Topic ℕ Tea) (fit : IsFit t) → IsSound (record m { tag_added = t })
  with_tag_added t fit = record {
    created_fit = s.created_fit;
    updated_fit = s.updated_fit;
    deleted_fit = s.deleted_fit;
    category_created_fit = s.category_created_fit;
    category_updated_fit = s.category_updated_fit;
    category_deleted_fit = s.category_deleted_fit;
    tag_added_fit = fit;
    tag_removed_fit = s.tag_removed_fit;
  }

  pub with_tag_removed : (t : Topic ℕ Tea) (fit : IsFit t) → IsSound (record m { tag_removed = t })
  with_tag_removed t fit = record {
    created_fit = s.created_fit;
    updated_fit = s.updated_fit;
    deleted_fit = s.deleted_fit;
    category_created_fit = s.category_created_fit;
    category_updated_fit = s.category_updated_fit;
    category_deleted_fit = s.category_deleted_fit;
    tag_added_fit = s.tag_added_fit;
    tag_removed_fit = fit;
  }

pub new_manager-IsSound : (db : Db) → IsSound (new_manager db)
unfolding new_manager
new_manager-IsSound db = record {
  created_fit = new_topic-IsFit;
  updated_fit = new_topic-IsFit;
  deleted_fit = new_topic-IsFit;
  category_created_fit = new_topic-IsFit;
  category_updated_fit = new_topic-IsFit;
  category_deleted_fit = new_topic-IsFit;
  tag_added_fit = new_topic-IsFit;
  tag_removed_fit = new_topic-IsFit;
}

-- A method that sends one event leaves a sound manager.
pub queued-IsSound :
    {A E M : Type 0} (a : A) (e : E) (t : Topic E M) (set : Topic E M → TagManager) (m : TagManager)
    → IsFit t
    → IsSound m
    → ((t' : Topic E M) → IsFit t' → IsSound (set t'))
    → IsSound (queued a (put e t) set m).1
queued-IsSound a e t set m fit s k = elim (put_cases e t) [
  | inl (done, _, fits) ↦ rw done (k (grown e t) (fits fit))
  | inr (full, _) ↦ rw full s
]

-- The loop waits, or a sound manager is left.
abbrev pub Proceeds : Outcome TagManager → Type 0
Proceeds o = (o ≡ blocked) ⊎ ((m : TagManager) × (o ≡ Outcome.ok m) × IsSound m)

pub bind-Proceeds :
    (o : Outcome TagManager) (k : TagManager → Outcome TagManager)
    → Proceeds o
    → ((m : TagManager) → IsSound m → Proceeds (k m))
    → Proceeds (o >>= k)
bind-Proceeds o k (inl waits) f = inl (rw waits)
bind-Proceeds o k (inr (m, ran, s)) f = rw ran (f m s)

pub publish-Proceeds :
    {E M : Type 0} (listens : ℕ → Bool) (message : M) (t : Topic E M) (set : Topic E M → TagManager)
    → IsFit t
    → ((t' : Topic E M) → IsFit t' → IsSound (set t'))
    → Proceeds (publish listens message t >>= λ t'. Outcome.ok (set t'))
publish-Proceeds listens message t set fit k =
    let sent = publish_lem listens message t fit in
    elim (Bool-cases (all_listen listens t.subscribers.subs)) [
      | inl heard ↦
          let (t', ran, fit', _, _, _) = sent.0 heard in inr (set t', rw ran refl, k t' fit')
      | inr deaf ↦ inl (rw (sent.1 deaf))
    ]
