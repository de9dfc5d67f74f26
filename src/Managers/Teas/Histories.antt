-- ===== src/Managers/Teas/Histories.antt =====
-- Histories of calls of the tea manager and rounds of its loop.
use tea_elephant_memory.Prelude.{
  ℕ, ◌≤◌, ◌≡◌, ◌≢◌, refl, ◌⊎◌, inl, inr, Bool, Option, none, some, List, [], ◌∷◌, length, arith,
}
use tea_elephant_memory.Clock.{Time}
use tea_elephant_memory.Domain as Common
use tea_elephant_memory.Store.{Db}
use tea_elephant_memory.Adapter.Teas.{write_record, update_record, delete_record}
use tea_elephant_memory.Subscribers.{State, Outcome, blocked, panicked, send_all, ◌>>=◌}
use tea_elephant_memory.Subscribers.Cleaning.{IsValid}
use tea_elephant_memory.Subscribers.Histories.{
  subscribe-IsValid, new_subscribers-IsValid, sends, step-Safe, step,
}
use tea_elephant_memory.Models.{from_common_tea}
use tea_elephant_memory.Managers.Teas.{
  TeaManager, new_manager, Environment, Case, takes_created, takes_updated, takes_deleted,
  clean_all, round, queue_size, create, update, delete, subscribe_on_create, subscribe_on_update,
  subscribe_on_delete, handle_created, handle_updated, handle_deleted,
}
use tea_elephant_memory.Managers.Teas.Rounds.{IsSound, clean_all_lem}
use tea_elephant_memory.Managers.Teas.Soundness.{
  with_db, with_created, with_updated, with_deleted, with_create_subscribers,
  with_update_subscribers, with_delete_subscribers, send_created-IsSound, send_updated-IsSound,
  send_deleted-IsSound,
}

-- What changes the manager: a call of a method, or a round of the loop.
pub data Event : Type 0 where
  creates_tea : ℕ → Time → Common.TeaData → Event
  updates_tea : ℕ → Common.TeaData → Event
  deletes_tea : ℕ → Event
  subscribes_on_create : ℕ → Event
  subscribes_on_update : ℕ → Event
  subscribes_on_delete : ℕ → Event
  goes_round : Environment → Case → Event

-- A round whose queue is empty does not happen.
abbrev pub after_round : TeaManager → Option (Outcome TeaManager) → Outcome TeaManager
after_round m none = Outcome.ok m
after_round m (some o) = o

pub happen : Event → TeaManager → Outcome TeaManager
happen (creates_tea id now rec) m = Outcome.ok (create id now rec m).1
happen (updates_tea id rec) m = Outcome.ok (update id rec m).1
happen (deletes_tea id) m = Outcome.ok (delete id m).1
happen (subscribes_on_create ctx) m = Outcome.ok (subscribe_on_create ctx m).0
happen (subscribes_on_update ctx) m = Outcome.ok (subscribe_on_update ctx m).0
happen (subscribes_on_delete ctx) m = Outcome.ok (subscribe_on_delete ctx m).0
happen (goes_round env c) m = after_round m (round env c m)

pub happen_all : List Event → TeaManager → Outcome TeaManager
unfolding happen
happen_all [] m = Outcome.ok m
happen_all (e ∷ es) m = do m' ← happen e m; happen_all es m'

-- The loop waits, or a sound manager is left.
abbrev pub Proceeds : Outcome TeaManager → Type 0
Proceeds o = (o ≡ blocked) ⊎ ((m : TeaManager) × (o ≡ Outcome.ok m) × IsSound m)

send_all-Proceeds :
    {T : Type 0} (listens : ℕ → Bool) (message : T) (subs : State T)
    (next : State T → Outcome TeaManager)
    → IsValid subs
    → ((subs' : State T) → IsValid subs' → Proceeds (next subs'))
    → Proceeds (send_all listens message subs >>= next)
unfolding step
send_all-Proceeds listens message subs next v k = elim (step-Safe (sends listens message) subs v) [
  | inl waits ↦ inl (rw waits)
  | inr (subs', ran, v') ↦ rw ran (k subs' v')
]

clean_all-Proceeds : (env : Environment) (m : TeaManager) → IsSound m → Proceeds (clean_all env m)
clean_all-Proceeds env m s =
    let cleaned = clean_all_lem env m s in inr (cleaned.0, cleaned.1, cleaned.2)

handle_created-Proceeds :
    (env : Environment) (queue : List Common.Tea) (m : TeaManager)
    → IsSound m
    → length queue ≤ queue_size
    → Proceeds (after_round m (handle_created env queue m))
unfolding handle_created
handle_created-Proceeds env [] m s bound = inr (m, refl, s)
handle_created-Proceeds env (x ∷ rest) m s bound =
    send_all-Proceeds env.on_create (from_common_tea x) m.create_subscribers _ s.creates (λ subs v.
      clean_all-Proceeds env _ (with_create_subscribers (with_created s rest (omega arith)) subs v))

handle_updated-Proceeds :
    (env : Environment) (queue : List Common.Tea) (m : TeaManager)
    → IsSound m
    → length queue ≤ queue_size
    → Proceeds (after_round m (handle_updated env queue m))
unfolding handle_updated
handle_updated-Proceeds env [] m s bound = inr (m, refl, s)
handle_updated-Proceeds env (x ∷ rest) m s bound =
    send_all-Proceeds env.on_update (from_common_tea x) m.update_subscribers _ s.updates (λ subs v.
      clean_all-Proceeds env _ (with_update_subscribers (with_updated s rest (omega arith)) subs v))

handle_deleted-Proceeds :
    (env : Environment) (queue : List ℕ) (m : TeaManager)
    → IsSound m
    → length queue ≤ queue_size
    → Proceeds (after_round m (handle_deleted env queue m))
unfolding handle_deleted
handle_deleted-Proceeds env [] m s bound = inr (m, refl, s)
handle_deleted-Proceeds env (x ∷ rest) m s bound =
    send_all-Proceeds env.on_delete x m.delete_subscribers _ s.deletes (λ subs v.
      clean_all-Proceeds env _ (with_delete_subscribers (with_deleted s rest (omega arith)) subs v))

happen-Proceeds : (e : Event) (m : TeaManager) → IsSound m → Proceeds (happen e m)
unfolding happen create update delete round subscribe_on_create subscribe_on_update
    subscribe_on_delete
happen-Proceeds (creates_tea id now rec) m s =
    let (result, db) = write_record id now rec m.db in
    inr (_, refl, send_created-IsSound result _ (with_db s db))
happen-Proceeds (updates_tea id rec) m s =
    let (result, db) = update_record id rec m.db in
    inr (_, refl, send_updated-IsSound result _ (with_db s db))
happen-Proceeds (deletes_tea id) m s =
    let (result, db) = delete_record id m.db in
    inr (_, refl, send_deleted-IsSound id result _ (with_db s db))
happen-Proceeds (subscribes_on_create ctx) m s =
    inr
      (_, refl, with_create_subscribers s _ (subscribe-IsValid ctx m.create_subscribers s.creates))
happen-Proceeds (subscribes_on_update ctx) m s =
    inr
      (_, refl, with_update_subscribers s _ (subscribe-IsValid ctx m.update_subscribers s.updates))
happen-Proceeds (subscribes_on_delete ctx) m s =
    inr
      (_, refl, with_delete_subscribers s _ (subscribe-IsValid ctx m.delete_subscribers s.deletes))
happen-Proceeds (goes_round env takes_created) m s =
    handle_created-Proceeds env m.created m s s.created_bound
happen-Proceeds (goes_round env takes_updated) m s =
    handle_updated-Proceeds env m.updated m s s.updated_bound
happen-Proceeds (goes_round env takes_deleted) m s =
    handle_deleted-Proceeds env m.deleted m s s.deleted_bound

happen_all-Proceeds : (es : List Event) (m : TeaManager) → IsSound m → Proceeds (happen_all es m)
unfolding happen_all
happen_all-Proceeds [] m s = inr (m, refl, s)
happen_all-Proceeds (e ∷ es) m s = elim (happen-Proceeds e m s) [
  | inl waits ↦ inl (rw waits)
  | inr (m', ran, s') ↦ rw ran (happen_all-Proceeds es m' s')
]

new_manager-IsSound : (db : Db) → IsSound (new_manager db)
unfolding new_manager
new_manager-IsSound db = record {
  creates = new_subscribers-IsValid;
  updates = new_subscribers-IsValid;
  deletes = new_subscribers-IsValid;
  created_bound = omega arith;
  updated_bound = omega arith;
  deleted_bound = omega arith;
}

-- No history of calls of the methods and rounds of the loop, on a new manager over any database,
-- panics by a send on a closed channel or a second close: the loop waits on a subscriber, or the
-- history ends with collections whose channels are distinct and open, and with queues that hold at
-- most their capacity.
pub happen_all-new_manager :
    (es : List Event) (db : Db)
    → Proceeds (happen_all es (new_manager db)) × (happen_all es (new_manager db) ≢ panicked)
happen_all-new_manager es db =
    let proceeds = happen_all-Proceeds es (new_manager db) (new_manager-IsSound db) in
    (proceeds, λ e. elim proceeds [ inl b ↦ cc | inr (m', o, _) ↦ cc ])
