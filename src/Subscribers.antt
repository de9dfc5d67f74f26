-- ===== src/Subscribers.antt =====
-- common/subscribers/generic_subscriber.go, and its copies under internal/managers/tag/subscribers
-- and internal/managers/tea/subscribers: the subscribers of one kind of event. Each method holds
-- the mutex throughout, so it is one step. Channels are unbuffered and named by numbers.
pub mod Removal
pub mod Cleaning
pub mod Delivery
pub mod Histories
pub mod Stall
mod Tests
use tea_elephant_memory.Prelude.{
  ℕ, zero, suc, ◌+◌, ◌-◌, ◌<◌, ◌≡◌, Bool, true, false, Option, none, some, List, [], ◌∷◌, ◌++◌, map,
  length, get_elem?, set, take, ltb, ◌==◌, ◌||◌, if◌then◌else◌, Mem, Nodup,
}

-- Subscriber[T]: a context and the channel to send to.
pub record Subscriber : Type 0 where
  pub ctx : ℕ
  pub ch : ℕ

-- A call ends, waits for ever on a channel that nobody receives from, or panics.
pub data Outcome (A : Type 0) : Type 0 where
  ok : A → Outcome A
  blocked : Outcome A
  panicked : Outcome A

infixl 5 ◌>>=◌
abbrev pub ◌>>=◌ : {A B : Type 0} → Outcome A → (A → Outcome B) → Outcome B
ok a >>= f = f a
blocked >>= f = blocked
panicked >>= f = panicked

-- subscribersImpl[T], with the part of the program's state that its methods touch: the next channel
-- that make(chan) creates, the channels closed, and the messages received, in order.
pub record State (T : Type 0) : Type 0 where
  pub subs : List Subscriber
  pub fresh : ℕ
  pub closed : List ℕ
  pub received : List (ℕ × T)

pub elem : ℕ → List ℕ → Bool
elem a [] = false
elem a (x ∷ xs) = a == x || elem a xs

-- close(ch) panics on a closed channel.
pub close_channel : ℕ → List ℕ → Outcome (List ℕ)
unfolding elem
close_channel ch closed = if elem ch closed then panicked else ok (closed ++ ch ∷ [])

-- The slice operations; an index out of range panics.

abbrev or_panic : {A : Type 0} → Option A → Outcome A
or_panic none = panicked
or_panic (some a) = ok a

pub store : {A : Type 0} → List A → ℕ → A → Outcome (List A)
store xs i a = if ltb i (length xs) then ok (set xs i a) else panicked

-- The first loop of CleanDone, from index i on: closes the channels of the subscribers whose context
-- is done, and collects their indices.
pub scan : (ℕ → Bool) → ℕ → List Subscriber → List ℕ → Outcome (List ℕ × List ℕ)
unfolding close_channel
scan is_done i [] closed = ok ([], closed)
scan is_done i (s ∷ ss) closed = elim (is_done s.ctx) [
  | false ↦ scan is_done (suc i) ss closed
  | true ↦ do
    closed' ← close_channel s.ch closed
    (rest, closed'') ← scan is_done (suc i) ss closed'
    ok (i ∷ rest, closed'')
]

-- The second loop of CleanDone: overwrites each collected position, from the last to the first, by
-- the element that stands as far from the end of what is to stay and go.
pub fill : ℕ → List ℕ → List Subscriber → Outcome (List Subscriber)
unfolding store
fill zero for_remove subs = ok subs
fill (suc j) for_remove subs = do
  position ← or_panic (get_elem? for_remove j)
  moved ← or_panic (get_elem? subs (length subs - length for_remove + j))
  subs' ← store subs position moved
  fill j for_remove subs'

module _ {T : Type 0} where
  -- NewSubscribers
  unfoldable pub new_subscribers : State T
  new_subscribers = record { subs = []; fresh = 0; closed = []; received = [] }

  pub clean_done : (ℕ → Bool) → State T → Outcome (State T)
  unfolding scan fill
  clean_done is_done st = do
    (for_remove, closed) ← scan is_done 0 st.subs st.closed
    subs ← fill (length for_remove) for_remove st.subs
    ok (record st { subs = take (length subs - length for_remove) subs; closed = closed })

  -- The send statement: panics on a closed channel, waits where nobody listens.
  pub send : (ℕ → Bool) → T → Subscriber → State T → Outcome (State T)
  unfolding elem
  send listens message s st =
      if elem s.ch st.closed
      then panicked
      else if listens s.ch
      then ok (record st { received = st.received ++ (s.ch, message) ∷ [] })
      else blocked

  pub send_loop : (ℕ → Bool) → T → List Subscriber → State T → Outcome (State T)
  unfolding send
  send_loop listens message [] st = ok st
  send_loop listens message (s ∷ ss) st = do
    st' ← send listens message s st
    send_loop listens message ss st'

  pub send_all : (ℕ → Bool) → T → State T → Outcome (State T)
  unfolding send_loop
  send_all listens message st = send_loop listens message st.subs st

  pub push : ℕ → ℕ → State T → State T
  push ctx ch st = record st { subs = st.subs ++ record { ctx = ctx; ch = ch } ∷ [] }

  -- The managers' SubscribeOn methods: a new channel, pushed and returned.
  unfoldable pub subscribe : ℕ → State T → State T × ℕ
  unfolding push
  subscribe ctx st = (push ctx st.fresh (record st { fresh = suc st.fresh }), st.fresh)
