-- ===== src/Managers/Tags/Histories.antt =====
-- Histories of calls of the tag manager and rounds of its loop.
use tea_elephant_memory.Prelude.{ℕ, ◌≢◌, refl, inl, inr, List, [], ◌∷◌, Bytes}
use tea_elephant_memory.Store.{Db, Postgres}
use tea_elephant_memory.Subscribers.{Outcome, panicked, ◌>>=◌}
use tea_elephant_memory.Adapter.Tags as Storage
use tea_elephant_memory.Managers.Topics.{subscribe_to-IsFit}
use tea_elephant_memory.Managers.Tags.{
  TagManager, new_manager, create_category, update_category, delete_category, create, update,
  change_category, delete, add_tag_to_tea, delete_tag_from_tea, subscribe_on_create,
  subscribe_on_update, subscribe_on_delete, subscribe_on_create_category,
  subscribe_on_update_category, subscribe_on_delete_category, subscribe_on_add_tag_to_tea,
  subscribe_on_delete_tag_to_tea,
}
use tea_elephant_memory.Managers.Tags.Loop.{
  Case, Environment, takes_created, takes_updated, takes_deleted, takes_category_created,
  takes_category_updated, takes_category_deleted, takes_tag_added, takes_tag_removed, round,
}
use tea_elephant_memory.Managers.Tags.Soundness.{
  IsSound, with_db, with_created, with_updated, with_deleted, with_category_created,
  with_category_updated, with_category_deleted, with_tag_added, with_tag_removed,
  new_manager-IsSound, Proceeds, bind-Proceeds,
}
use tea_elephant_memory.Managers.Tags.Sends.{
  send_category_created-IsSound, send_created-IsSound, send_updated-IsSound, send_deleted-IsSound,
  send_tag_added-IsSound, send_tag_removed-IsSound, send_category_updated-IsSound,
  send_all_deleted-IsSound,
}
use tea_elephant_memory.Managers.Tags.Rounds.{after_round, round-Proceeds}

-- What changes the manager: a call of a method, or a round of the loop.
pub data Event : Type 0 where
  creates_category : ℕ → Bytes → Event
  updates_category : ℕ → Bytes → Event
  deletes_category : ℕ → Event
  creates_tag : ℕ → Bytes → Bytes → ℕ → Event
  updates_tag : ℕ → Bytes → Bytes → Event
  changes_category : ℕ → ℕ → Event
  deletes_tag : ℕ → Event
  adds_tag_to_tea : ℕ → ℕ → Event
  deletes_tag_from_tea : ℕ → ℕ → Event
  subscribes : Case → ℕ → Event
  goes_round : Environment → Case → Event

pub subscribe_on : Case → ℕ → TagManager → TagManager
subscribe_on takes_created ctx m = (subscribe_on_create ctx m).0
subscribe_on takes_updated ctx m = (subscribe_on_update ctx m).0
subscribe_on takes_deleted ctx m = (subscribe_on_delete ctx m).0
subscribe_on takes_category_created ctx m = (subscribe_on_create_category ctx m).0
subscribe_on takes_category_updated ctx m = (subscribe_on_update_category ctx m).0
subscribe_on takes_category_deleted ctx m = (subscribe_on_delete_category ctx m).0
subscribe_on takes_tag_added ctx m = (subscribe_on_add_tag_to_tea ctx m).0
subscribe_on takes_tag_removed ctx m = (subscribe_on_delete_tag_to_tea ctx m).0

subscribe_on-IsSound :
    (c : Case) (ctx : ℕ) (m : TagManager) → IsSound m → IsSound (subscribe_on c ctx m)
unfolding subscribe_on subscribe_on_create subscribe_on_update subscribe_on_delete
    subscribe_on_create_category subscribe_on_update_category subscribe_on_delete_category
    subscribe_on_add_tag_to_tea subscribe_on_delete_tag_to_tea
subscribe_on-IsSound takes_created ctx m s =
    with_created s _ (subscribe_to-IsFit ctx m.created s.created_fit)
subscribe_on-IsSound takes_updated ctx m s =
    with_updated s _ (subscribe_to-IsFit ctx m.updated s.updated_fit)
subscribe_on-IsSound takes_deleted ctx m s =
    with_deleted s _ (subscribe_to-IsFit ctx m.deleted s.deleted_fit)
subscribe_on-IsSound takes_category_created ctx m s =
    with_category_created s _ (subscribe_to-IsFit ctx m.category_created s.category_created_fit)
subscribe_on-IsSound takes_category_updated ctx m s =
    with_category_updated s _ (subscribe_to-IsFit ctx m.category_updated s.category_updated_fit)
subscribe_on-IsSound takes_category_deleted ctx m s =
    with_category_deleted s _ (subscribe_to-IsFit ctx m.category_deleted s.category_deleted_fit)
subscribe_on-IsSound takes_tag_added ctx m s =
    with_tag_added s _ (subscribe_to-IsFit ctx m.tag_added s.tag_added_fit)
subscribe_on-IsSound takes_tag_removed ctx m s =
    with_tag_removed s _ (subscribe_to-IsFit ctx m.tag_removed s.tag_removed_fit)

module _ (pg : Postgres) where
  pub happen : Event → TagManager → Outcome TagManager
  unfolding subscribe_on
  happen (creates_category id name) m = Outcome.ok (create_category id name m).1
  happen (updates_category id name) m = Outcome.ok (update_category id name m).1
  happen (deletes_category id) m = Outcome.ok (delete_category pg id m).1
  happen (creates_tag id name color category) m = Outcome.ok (create pg id name color category m).1
  happen (updates_tag id name color) m = Outcome.ok (update pg id name color m).1
  happen (changes_category id category) m = Outcome.ok (change_category pg id category m).1
  happen (deletes_tag id) m = Outcome.ok (delete id m).1
  happen (adds_tag_to_tea tea tag) m = Outcome.ok (add_tag_to_tea tea tag m).1
  happen (deletes_tag_from_tea tea tag) m = Outcome.ok (delete_tag_from_tea tea tag m).1
  happen (subscribes c ctx) m = Outcome.ok (subscribe_on c ctx m)
  happen (goes_round env c) m = after_round m (round env c m)

  pub happen_all : List Event → TagManager → Outcome TagManager
  unfolding happen
  happen_all [] m = Outcome.ok m
  happen_all (e ∷ es) m = do m' ← happen e m; happen_all es m'

  happen-Proceeds : (e : Event) (m : TagManager) → IsSound m → Proceeds (happen e m)
  unfolding happen create_category update_category delete_category create update change_category
      delete add_tag_to_tea delete_tag_from_tea
  happen-Proceeds (creates_category id name) m s = inr (
    _,
    refl,
    send_category_created-IsSound (Storage.create_tag_category id name m.db).0 _ (with_db s _),
  )
  happen-Proceeds (updates_category id name) m s = inr (
    _,
    refl,
    send_category_updated-IsSound (record { id = id; name = name })
        (Storage.update_tag_category id name m.db).0 _ (with_db s _),
  )
  happen-Proceeds (deletes_category id) m s = inr (
    _,
    refl,
    send_all_deleted-IsSound id (Storage.delete_tag_category pg id m.db).0 _ (with_db s _),
  )
  happen-Proceeds (creates_tag id name color category) m s = inr (
    _,
    refl,
    send_created-IsSound (Storage.create_tag pg id name color category m.db).0 _ (with_db s _),
  )
  happen-Proceeds (updates_tag id name color) m s =
      inr
        (_, refl, send_updated-IsSound (Storage.update_tag pg id name color m.db).0 _ (with_db s _))
  happen-Proceeds (changes_category id category) m s = inr (
    _,
    refl,
    send_updated-IsSound (Storage.change_tag_category pg id category m.db).0 _ (with_db s _),
  )
  happen-Proceeds (deletes_tag id) m s =
      inr (_, refl, send_deleted-IsSound id (Storage.delete_tag id m.db).0 _ (with_db s _))
  happen-Proceeds (adds_tag_to_tea tea tag) m s =
      inr (
        _,
        refl,
        send_tag_added-IsSound tea (Storage.add_tag_to_tea tea tag m.db).0 _ (with_db s _),
      )
  happen-Proceeds (deletes_tag_from_tea tea tag) m s = inr (
    _,
    refl,
    send_tag_removed-IsSound tea (Storage.delete_tag_from_tea tea tag m.db).0 _ (with_db s _),
  )
  happen-Proceeds (subscribes c ctx) m s = inr (_, refl, subscribe_on-IsSound c ctx m s)
  happen-Proceeds (goes_round env c) m s = round-Proceeds env c m s

  happen_all-Proceeds : (es : List Event) (m : TagManager) → IsSound m → Proceeds (happen_all es m)
  unfolding happen_all
  happen_all-Proceeds [] m s = inr (m, refl, s)
  happen_all-Proceeds (e ∷ es) m s =
      bind-Proceeds (happen e m) (happen_all es) (happen-Proceeds e m s) (happen_all-Proceeds es)

  -- No history of calls of the methods and rounds of the loop, on a new manager over any database,
  -- panics by a send on a closed channel or a second close: the loop waits on a subscriber, or the
  -- history ends with collections whose channels are distinct and open, and with eight queues that
  -- hold at most their capacity.
  pub tag_history_sound :
      (es : List Event) (db : Db)
      → Proceeds (happen_all es (new_manager db)) × (happen_all es (new_manager db) ≢ panicked)
  tag_history_sound es db =
      let proceeds = happen_all-Proceeds es (new_manager db) (new_manager-IsSound db) in
      (proceeds, λ e. elim proceeds [ inl b ↦ cc | inr (m', o, _) ↦ cc ])
