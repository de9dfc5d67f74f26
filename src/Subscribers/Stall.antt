-- ===== src/Subscribers/Stall.antt =====
-- The order of SendAll and CleanDone in the managers' loops: an event is sent before the subscribers
-- whose context is done are removed.
use mathlib.Core.HLevel.{×_prop}
use mathlib.Core.List.Perm
use mathlib.Core.List.{eq-or-mem_of_mem-cons, mem-cons_self, mem-cons_of_mem, not-mem-nil, Mem-prop}
use mathlib.Core.Logic.Or
use tea_elephant_memory.Prelude.{
  ℕ, ◌≡◌, refl, ◌∙◌, inl, inr, Bool, true, false, Bool-cases, List, [], ◌∷◌, ◌++◌, keep, Mem, arith,
  subst, sym,
}
use tea_elephant_memory.Subscribers.{Subscriber, State, ok, blocked, ◌>>=◌, send_all, clean_done}
use tea_elephant_memory.Subscribers.Cleaning.{IsValid, dead, clean_done_lem}
use tea_elephant_memory.Subscribers.Delivery.{all_listen, messages, send_all_lem}
use tea_elephant_memory.Subscribers.Histories.{clean_done-IsValid}
use tea_elephant_memory.Subscribers.Removal.{live}

pub Bool-set : IsSet Bool
Bool-set = hlevel

mem-keep :
    (p : Subscriber → Bool) (s : Subscriber) (xs : List Subscriber)
    → Mem s (keep p xs)
    → Mem s xs × (p s ≡ true)
unfolding keep
mem-keep p s [] m = absurd (not-mem-nil m)
mem-keep p s (x ∷ xs) m = elim (Bool-cases (p x)) [
  | inl e ↦
      Or.elim (×_prop Mem-prop (Bool-set _ _)) (eq-or-mem_of_mem-cons (rw e at m))
        (λ same.
          (subst (λ y. Mem s (y ∷ xs)) same mem-cons_self, subst (λ y. p y ≡ true) (sym same) e))
        (λ there. let (old, passed) = mem-keep p s xs there in (mem-cons_of_mem x old, passed))
  | inr e ↦ let (old, passed) = mem-keep p s xs (rw e at m) in (mem-cons_of_mem x old, passed)
]

all_listen-false :
    (listens : ℕ → Bool) (s : Subscriber) (xs : List Subscriber)
    → Mem s xs
    → listens s.ch ≡ false
    → all_listen listens xs ≡ false
unfolding all_listen
all_listen-false listens s [] m h = absurd (not-mem-nil m)
all_listen-false listens s (x ∷ xs) m h =
    Or.elim (Bool-set _ _) (eq-or-mem_of_mem-cons m)
      (λ same.
        let deaf : listens x.ch ≡ false = subst (λ (y : Subscriber). listens y.ch ≡ false) same h in
        rw deaf)
      (λ there. ground (arith, all_listen-false listens s xs there h))

all_listen-true :
    (listens : ℕ → Bool) (xs : List Subscriber)
    → ((s : Subscriber) → Mem s xs → listens s.ch ≡ true)
    → all_listen listens xs ≡ true
unfolding all_listen
all_listen-true listens [] h = refl
all_listen-true listens (x ∷ xs) h =
    rw (h x mem-cons_self, all_listen-true listens xs (λ s m. h s (mem-cons_of_mem x m)))

-- Where a subscriber has gone, its context done and nobody receiving from its channel, and every
-- other one receives, the loops' order, send and then clean, waits for ever, while cleaning first
-- would let the same message reach everybody who is left.
pub stale_subscriber_blocks :
    {T : Type 0} (is_done listens : ℕ → Bool) (m : T) (st : State T) (gone : Subscriber)
    → IsValid st
    → Mem gone st.subs
    → listens gone.ch ≡ false
    → ((s : Subscriber) → Mem s st.subs → is_done s.ctx ≡ false → listens s.ch ≡ true)
    → ((send_all listens m st >>= clean_done is_done) ≡ blocked)
      × ((st' : State T) × (clean_done is_done st ≡ ok st')
          × (send_all listens m st'
              ≡ ok (record st' { received = st'.received ++ messages m st'.subs })))
stale_subscriber_blocks is_done listens m st gone v here deaf rest =
    let cleaned = clean_done_lem is_done st v in
    let st' = cleaned.0 in
    let reached : all_listen listens st'.subs ≡ true = all_listen-true listens st'.subs (λ s there.
      let (old, lives) =
        mem-keep (live (dead is_done)) s st.subs ((Perm.mem_iff cleaned.2).0 there) in
      rest s old (ground arith)) in
    (
      rw (send_all_lem listens m st v, all_listen-false listens gone st.subs here deaf),
      (
        st',
        cleaned.1,
        send_all_lem listens m st' (clean_done-IsValid is_done st st' v cleaned.1) ∙ rw reached,
      ),
    )
