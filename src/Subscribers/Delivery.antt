-- ===== src/Subscribers/Delivery.antt =====
-- SendAll on a valid collection: delivery to everybody, or a wait.
use mathlib.Core.List.{Nodup-cons, mem-append_right}
use tea_elephant_memory.Prelude.{
  ℕ, ◌≡◌, inl, inr, Bool, true, false, Bool-cases, ◌&&◌, List, [], ◌∷◌, ◌++◌, map, All, Nodup,
  append_assoc, append-nil, if◌then◌else◌,
}
use tea_elephant_memory.Subscribers.{
  Subscriber, State, ok, blocked, elem, send, send_loop, send_all,
}
use tea_elephant_memory.Subscribers.Cleaning.{chans, IsValid, elem-eq-false}

-- Whoever is subscribed receives from its channel.
unfoldable pub all_listen : (ℕ → Bool) → List Subscriber → Bool
all_listen listens [] = true
all_listen listens (s ∷ ss) = listens s.ch && all_listen listens ss

open_chans :
    (ss : List Subscriber) (closed : List ℕ)
    → Nodup (chans ss ++ closed)
    → All (λ s. elem s.ch closed ≡ false) ss
open_chans [] closed h = tt
open_chans (s ∷ ss) closed h = (
  elem-eq-false s.ch closed (λ m. (Nodup-cons.0 h).0 (mem-append_right (chans ss) m)),
  open_chans ss closed (Nodup-cons.0 h).1,
)

module _ {T : Type 0} where
  abbrev pub messages : T → List Subscriber → List (ℕ × T)
  messages m = map (λ s. (s.ch, m))

  send_loop_lem :
      (listens : ℕ → Bool) (m : T) (ss : List Subscriber) (st : State T)
      → All (λ s. elem s.ch st.closed ≡ false) ss
      → send_loop listens m ss st ≡ (
          if all_listen listens ss
          then ok (record st { received = st.received ++ messages m ss })
          else blocked)
  unfolding send_loop send all_listen
  send_loop_lem listens m [] st h = rw append-nil
  send_loop_lem listens m (s ∷ ss) st h = elim (Bool-cases (listens s.ch)) [
    | inl l ↦
        rw (h.0, l)
          (rw
            (send_loop_lem listens m ss (record st { received = st.received ++ (s.ch, m) ∷ [] })
              h.1)
            (rw append_assoc))
    | inr d ↦ rw (h.0, d)
  ]

  -- On a valid collection SendAll delivers the message to every subscriber, in order, when all of
  -- them receive, and waits for ever when one of them does not; it never panics.
  pub send_all_lem :
      (listens : ℕ → Bool) (m : T) (st : State T)
      → IsValid st
      → send_all listens m st ≡ (
          if all_listen listens st.subs
          then ok (record st { received = st.received ++ messages m st.subs })
          else blocked)
  unfolding send_all
  send_all_lem listens m st v =
      send_loop_lem listens m st.subs st (open_chans st.subs st.closed v.distinct)
