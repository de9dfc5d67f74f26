-- ===== src/Managers/Teas/Soundness.antt =====
-- Changes of one field that keep the tea manager sound, and the sends on its queues.
use tea_elephant_memory.Prelude.{
  ℕ, ◌≤◌, inl, inr, Bool-cases, List, [], ◌∷◌, ◌++◌, length, length-append, arith, ltb,
}
use tea_elephant_memory.Domain as Common
use tea_elephant_memory.Store.{Db, Result, ok, err}
use tea_elephant_memory.Adapter.{Error}
use tea_elephant_memory.Subscribers.{State}
use tea_elephant_memory.Subscribers.Cleaning.{IsValid}
use tea_elephant_memory.Models.{Tea}
use tea_elephant_memory.Managers.Teas.{
  TeaManager, queue_size, send_created, send_updated, send_deleted,
}
use tea_elephant_memory.Managers.Teas.Rounds.{IsSound}

module _ {m : TeaManager} (s : IsSound m) where
  pub with_db : (db : Db) → IsSound (record m { db = db })
  with_db db = record {
    creates = s.creates;
    updates = s.updates;
    deletes = s.deletes;
    created_bound = s.created_bound;
    updated_bound = s.updated_bound;
    deleted_bound = s.deleted_bound;
  }

  pub with_created :
      (queue : List Common.Tea) (bound : length queue ≤ queue_size)
      → IsSound (record m { created = queue })
  with_created queue bound = record {
    creates = s.creates;
    updates = s.updates;
    deletes = s.deletes;
    created_bound = bound;
    updated_bound = s.updated_bound;
    deleted_bound = s.deleted_bound;
  }

  pub with_updated :
      (queue : List Common.Tea) (bound : length queue ≤ queue_size)
      → IsSound (record m { updated = queue })
  with_updated queue bound = record {
    creates = s.creates;
    updates = s.updates;
    deletes = s.deletes;
    created_bound = s.created_bound;
    updated_bound = bound;
    deleted_bound = s.deleted_bound;
  }

  pub with_deleted :
      (queue : List ℕ) (bound : length queue ≤ queue_size) → IsSound (record m { deleted = queue })
  with_deleted queue bound = record {
    creates = s.creates;
    updates = s.updates;
    deletes = s.deletes;
    created_bound = s.created_bound;
    updated_bound = s.updated_bound;
    deleted_bound = bound;
  }

  pub with_create_subscribers :
      (subs : State Tea) (valid : IsValid subs) → IsSound (record m { create_subscribers = subs })
  with_create_subscribers subs valid = record {
    creates = valid;
    updates = s.updates;
    deletes = s.deletes;
    created_bound = s.created_bound;
    updated_bound = s.updated_bound;
    deleted_bound = s.deleted_bound;
  }

  pub with_update_subscribers :
      (subs : State Tea) (valid : IsValid subs) → IsSound (record m { update_subscribers = subs })
  with_update_subscribers subs valid = record {
    creates = s.creates;
    updates = valid;
    deletes = s.deletes;
    created_bound = s.created_bound;
    updated_bound = s.updated_bound;
    deleted_bound = s.deleted_bound;
  }

  pub with_delete_subscribers :
      (subs : State ℕ) (valid : IsValid subs) → IsSound (record m { delete_subscribers = subs })
  with_delete_subscribers subs valid = record {
    creates = s.creates;
    updates = s.updates;
    deletes = valid;
    created_bound = s.created_bound;
    updated_bound = s.updated_bound;
    deleted_bound = s.deleted_bound;
  }

pub send_created-IsSound :
    (r : Result Error (Common.Tea)) (m : TeaManager) → IsSound m → IsSound (send_created r m).1
unfolding send_created
send_created-IsSound (err e) m s = s
send_created-IsSound (ok x) m s = elim (Bool-cases (ltb (length m.created) queue_size)) [
  | inl room ↦
      rw room
        (with_created s (m.created ++ x ∷ []) (ground (arith, length-append m.created (x ∷ []))))
  | inr full ↦ rw full s
]

pub send_updated-IsSound :
    (r : Result Error (Common.Tea)) (m : TeaManager) → IsSound m → IsSound (send_updated r m).1
unfolding send_updated
send_updated-IsSound (err e) m s = s
send_updated-IsSound (ok x) m s = elim (Bool-cases (ltb (length m.updated) queue_size)) [
  | inl room ↦
      rw room
        (with_updated s (m.updated ++ x ∷ []) (ground (arith, length-append m.updated (x ∷ []))))
  | inr full ↦ rw full s
]

pub send_deleted-IsSound :
    (id : ℕ) (r : Result Error (Unit {0})) (m : TeaManager)
    → IsSound m
    → IsSound (send_deleted id r m).1
unfolding send_deleted
send_deleted-IsSound id (err e) m s = s
send_deleted-IsSound id (ok x) m s = elim (Bool-cases (ltb (length m.deleted) queue_size)) [
  | inl room ↦
      rw room
        (with_deleted s (m.deleted ++ id ∷ []) (ground (arith, length-append m.deleted (id ∷ []))))
  | inr full ↦ rw full s
]
