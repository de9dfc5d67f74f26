-- ===== src/Subscribers/Histories.antt =====
-- The invariant over every history of calls, and that no history panics.
use mathlib.Core.List.Perm
use mathlib.Core.Logic.Or
use native.Mathlib.Bridge.{le_prop}
use mathlib.Core.List.{
  Nodup-cons, Nodup-nil, eq-or-mem_of_mem-cons, not-mem-nil, perm_middle, perm_append_comm,
}
use tea_elephant_memory.Prelude.{
  ℕ, ◌≡◌, ◌≢◌, ◌⊎◌, refl, subst, ◌∙◌, inl, inr, Bool, Bool-cases, List, [], ◌∷◌, ◌++◌, map-append,
  keep, Perm, append_assoc, arith,
}
use tea_elephant_memory.Subscribers.{
  Subscriber, State, Outcome, ok, blocked, panicked, ◌>>=◌, send_all, clean_done, push, subscribe,
  new_subscribers,
}
use tea_elephant_memory.Subscribers.Removal.{live}
use tea_elephant_memory.Subscribers.Cleaning.{chans, channels, IsValid, dead, clean_done_lem}
use tea_elephant_memory.Subscribers.Delivery.{all_listen, messages, send_all_lem}

-- A test splits a list.
keep_partition :
    (p : Subscriber → Bool) (xs : List Subscriber) → Perm (keep (live p) xs ++ keep p xs) xs
unfolding keep
keep_partition p [] = Perm.nil
keep_partition p (x ∷ xs) = elim (Bool-cases (p x)) [
  | inl d ↦
      rw d (
        Perm.trans (perm_middle (keep (live p) xs) (keep p xs)) (Perm.cons x (keep_partition p xs)))
  | inr l ↦ rw l (Perm.cons x (keep_partition p xs))
]

module _ {T : Type 0} where
  channels-perm :
      (is_done : ℕ → Bool) (ss : List Subscriber) (st : State T)
      → Perm ss (keep (live (dead is_done)) st.subs)
      → Perm (chans ss ++ (st.closed ++ chans (keep (dead is_done) st.subs))) (channels st)
  channels-perm is_done ss st h =
      let kept = keep (live (dead is_done)) st.subs in
      let gone = keep (dead is_done) st.subs in
      let together : Perm (chans kept ++ chans gone) (chans st.subs) =
        subst (λ cs. Perm cs (chans st.subs)) (map-append (λ s. s.ch) kept gone)
          (Perm.map (λ (s : Subscriber). s.ch) (keep_partition (dead is_done) st.subs)) in
      Perm.trans (Perm.append_right _ (Perm.map (λ (s : Subscriber). s.ch) h)) (
        Perm.trans (Perm.append_left (chans kept) (perm_append_comm st.closed (chans gone))) (
          rw (← append_assoc (chans kept) (chans gone) st.closed)
            (Perm.append_right st.closed together)))

  -- The invariant moves along any rearrangement of the channels.
  IsValid-perm :
      (st st' : State T)
      → Perm (channels st') (channels st)
      → st'.fresh ≡ st.fresh
      → IsValid st
      → IsValid st'
  IsValid-perm st st' p e v = record {
    distinct = Perm.nodup (Perm.symm p) v.distinct;
    below = λ c m. rw e (v.below c ((Perm.mem_iff p).0 m));
  }

  -- CleanDone keeps the invariant.
  pub clean_done-IsValid :
      (is_done : ℕ → Bool) (st st' : State T)
      → IsValid st
      → clean_done is_done st ≡ ok st'
      → IsValid st'
  clean_done-IsValid is_done st st' v e =
      let (st₂, run, subs, closed, fresh, _) = clean_done_lem is_done st v in
      let same : st₂ ≡ st' = cc in
      subst IsValid same
        (IsValid-perm st st₂ (rw closed (channels-perm is_done st₂.subs st subs)) fresh v)

  push-perm : (ctx ch : ℕ) (st : State T) → Perm (channels (push ctx ch st)) (ch ∷ channels st)
  unfolding push
  push-perm ctx ch st = rw (map-append, append_assoc) (perm_middle (chans st.subs) st.closed)

  pub subscribe-IsValid : (ctx : ℕ) (st : State T) → IsValid st → IsValid (subscribe ctx st).0
  unfolding subscribe
  subscribe-IsValid ctx st v = record {
    distinct =
        Perm.nodup (Perm.symm (push-perm ctx st.fresh st))
          (Nodup-cons.1 (λ m. absurd (omega (arith, v.below st.fresh m)), v.distinct));
    below = λ c m.
        Or.elim le_prop (eq-or-mem_of_mem-cons ((Perm.mem_iff (push-perm ctx st.fresh st)).0 m))
          (λ e. omega (arith, e)) (λ old. omega (arith, v.below c old));
  }

  pub new_subscribers-IsValid : IsValid (new_subscribers {T = T})
  unfolding new_subscribers
  new_subscribers-IsValid = record { distinct = Nodup-nil; below = λ c m. absurd (not-mem-nil m) }

-- A call by a client or by a manager's loop. The environment says which contexts are done and which
-- channels are received from.
pub data Call (T : Type 0) : Type 0 where
  subscribes : ℕ → Call T
  sends : (ℕ → Bool) → T → Call T
  cleans : (ℕ → Bool) → Call T

module _ {T : Type 0} where
  unfoldable pub step : Call T → State T → Outcome (State T)
  step (subscribes ctx) st = ok (subscribe ctx st).0
  step (sends listens m) st = send_all listens m st
  step (cleans is_done) st = clean_done is_done st

  unfoldable pub run : List (Call T) → State T → Outcome (State T)
  unfolding step
  run [] st = ok st
  run (c ∷ cs) st = do st' ← step c st; run cs st'

  -- The call waits, or ends in a valid state.
  abbrev pub Safe : Outcome (State T) → Type 0
  Safe o = (o ≡ blocked) ⊎ ((st' : State T) × (o ≡ ok st') × IsValid st')

  pub step-Safe : (c : Call T) (st : State T) → IsValid st → Safe (step c st)
  unfolding step
  step-Safe (subscribes ctx) st v = inr ((subscribe ctx st).0, refl, subscribe-IsValid ctx st v)
  step-Safe (cleans is_done) st v =
      let cleaned = clean_done_lem is_done st v in
      inr (cleaned.0, cleaned.1, clean_done-IsValid is_done st cleaned.0 v cleaned.1)
  step-Safe (sends listens m) st v = elim (Bool-cases (all_listen listens st.subs)) [
    | inl l ↦ inr (
      record st { received = st.received ++ messages m st.subs },
      send_all_lem listens m st v ∙ rw l,
      record { distinct = v.distinct; below = v.below },
    )
    | inr d ↦ inl (send_all_lem listens m st v ∙ rw d)
  ]

  pub run-Safe : (cs : List (Call T)) (st : State T) → IsValid st → Safe (run cs st)
  unfolding run
  run-Safe [] st v = inr (st, refl, v)
  run-Safe (c ∷ cs) st v = elim (step-Safe c st v) [
    | inl e ↦ inl (rw e)
    | inr (st', e, v') ↦ rw e (run-Safe cs st' v')
  ]

  -- No history of subscribing, sending and cleaning that starts from an empty collection sends on a
  -- closed channel or closes a channel twice: it waits on a receiver, or ends in a collection whose
  -- channels are distinct and open, and never panics.
  pub run-new_subscribers :
      (cs : List (Call T)) → Safe (run cs new_subscribers) × (run cs new_subscribers ≢ panicked)
  run-new_subscribers cs =
      let safe = run-Safe cs new_subscribers new_subscribers-IsValid in
      (safe, λ e. elim safe [ inl b ↦ cc | inr (st', o, _) ↦ cc ])
