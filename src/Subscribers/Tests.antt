-- ===== src/Subscribers/Tests.antt =====
-- Instances of the theorems on subscribers at a concrete collection, and test runs.
use mathlib.Core.HLevel.{Π_prop}
use mathlib.Core.List.{mem-cons_self}
use tea_elephant_memory.Prelude.{
  ℕ, ◌≡◌, ◌≢◌, refl, Bool, true, false, List, [], ◌∷◌, ◌++◌, keep, Mem, Perm, All-mem, ◌==◌,
  if◌then◌else◌,
}
use tea_elephant_memory.Subscribers.{
  Subscriber, State, ok, blocked, panicked, ◌>>=◌, elem, scan, fill, clean_done, send_all, push,
  subscribe, new_subscribers,
}
use tea_elephant_memory.Subscribers.Cleaning.{chans, IsValid, dead, clean_done_lem}
use tea_elephant_memory.Subscribers.Delivery.{all_listen, messages, send_all_lem}
use tea_elephant_memory.Subscribers.Histories.{
  Call, subscribes, sends, cleans, step, run, Safe, subscribe-IsValid, new_subscribers-IsValid,
  run-new_subscribers,
}
use tea_elephant_memory.Subscribers.Removal.{live}
use tea_elephant_memory.Subscribers.Stall.{Bool-set, stale_subscriber_blocks}

program : Unit {0}
unfolding elem scan fill clean_done send_all push subscribe new_subscribers step run
program = tt

-- Contexts 10 and 12 are done, and nobody receives on their channels.
abbrev is_done : ℕ → Bool
is_done ctx = if ctx == 10 then true else ctx == 12

abbrev listens : ℕ → Bool
listens ch = ch == 1

abbrev three : State ℕ
three = record {
  subs =
      record { ctx = 10; ch = 0 } ∷ record { ctx = 11; ch = 1 } ∷ record { ctx = 12; ch = 2 } ∷ [];
  fresh = 3;
  closed = [];
  received = [];
}

-- The last is moved over the first of the done ones, and the tail is cut.
clean_done_test :
    clean_done is_done three
    ≡ ok (record three { subs = record { ctx = 11; ch = 1 } ∷ []; closed = 0 ∷ 2 ∷ [] })
unfolding program
clean_done_test = refl

three-IsValid : IsValid three
unfolding program
three-IsValid =
    subscribe-IsValid 12 _ (subscribe-IsValid 11 _ (subscribe-IsValid 10 _ new_subscribers-IsValid))

clean_done_lem_example :
    (st' : State ℕ) × (clean_done is_done three ≡ ok st')
    × Perm st'.subs (keep (live (dead is_done)) three.subs)
    × (st'.closed ≡ three.closed ++ chans (keep (dead is_done) three.subs))
    × (st'.fresh ≡ three.fresh)
    × (st'.received ≡ three.received)
clean_done_lem_example = clean_done_lem is_done three three-IsValid

send_all_lem_example : send_all listens 7 three ≡ (
    if all_listen listens three.subs
    then ok (record three { received = three.received ++ messages 7 three.subs })
    else blocked)
send_all_lem_example = send_all_lem listens 7 three three-IsValid

abbrev history : List (Call ℕ)
history =
    subscribes 10 ∷ subscribes 11 ∷ sends (λ _. true) 5 ∷ cleans is_done ∷ sends listens 6 ∷ []

history_test :
    run history new_subscribers
    ≡ ok (record {
      subs = record { ctx = 11; ch = 1 } ∷ [];
      fresh = 2;
      closed = 0 ∷ [];
      received = (0, 5) ∷ (1, 5) ∷ (1, 6) ∷ [];
    })
unfolding program
history_test = refl

run-new_subscribers_example :
    Safe (run history new_subscribers) × (run history new_subscribers ≢ panicked)
run-new_subscribers_example = run-new_subscribers history

live_ones_listen : (s : Subscriber) → Mem s three.subs → is_done s.ctx ≡ false → listens s.ch ≡ true
live_ones_listen =
    All-mem (λ s. is_done s.ctx ≡ false → listens s.ch ≡ true)
      (λ s. Π_prop λ _. Bool-set (listens s.ch) true) three.subs
      (λ e. cc, (λ e. refl, (λ e. cc, tt)))

stale_subscriber_blocks_example :
    ((send_all listens 7 three >>= clean_done is_done) ≡ blocked)
    × ((st' : State ℕ) × (clean_done is_done three ≡ ok st')
        × (send_all listens 7 st'
            ≡ ok (record st' { received = st'.received ++ messages 7 st'.subs })))
stale_subscriber_blocks_example =
    stale_subscriber_blocks is_done listens 7 three (record { ctx = 10; ch = 0 }) three-IsValid
      mem-cons_self refl live_ones_listen
