-- ===== src/Managers/Topics.antt =====
-- The queue of one kind of event and the subscribers that its events go to, as a manager keeps them.
use tea_elephant_memory.Prelude.{
  ℕ, zero, suc, ◌+◌, ◌<◌, ◌≤◌, take, append_assoc, append-nil, ◌≡◌, ◌⊎◌, refl, ap, inl, inr, Bool,
  Bool-cases, true, false, Option, none, some, List, [], ◌∷◌, ◌++◌, length, length-append, ltb,
  if◌then◌else◌, arith, Perm, keep,
}
use tea_elephant_memory.Subscribers.{
  State, Outcome, blocked, new_subscribers, clean_done, send_all, subscribe, ◌>>=◌,
}
use tea_elephant_memory.Subscribers.Cleaning.{IsValid, dead, clean_done_lem}
use tea_elephant_memory.Subscribers.Removal.{live}
use tea_elephant_memory.Subscribers.Delivery.{all_listen, messages, send_all_lem}
use tea_elephant_memory.Subscribers.Histories.{
  clean_done-IsValid, subscribe-IsValid, new_subscribers-IsValid,
}

-- The capacity of each queue: defaultChanSize.
abbrev pub chan_size : ℕ
chan_size = 100

-- Events of type E become messages of type M.
pub record Topic (E M : Type 0) : Type 0 where
  pub queue : List E
  pub subscribers : State M

module _ {E M : Type 0} where
  abbrev pub new_topic : Topic E M
  new_topic = record { queue = []; subscribers = new_subscribers }

  -- A send on the queue, which waits (none) while the queue is full.
  pub put : E → Topic E M → Option (Topic E M)
  put e t =
      if ltb (length t.queue) chan_size then some (record t { queue = t.queue ++ e ∷ [] }) else none

  pub subscribe_to : ℕ → Topic E M → Topic E M × ℕ
  subscribe_to ctx t =
      let (subs, ch) = subscribe ctx t.subscribers in (record t { subscribers = subs }, ch)

  pub publish : (ℕ → Bool) → M → Topic E M → Outcome (Topic E M)
  publish listens message t = do
    subs ← send_all listens message t.subscribers
    Outcome.ok (record t { subscribers = subs })

  pub clean : (ℕ → Bool) → Topic E M → Outcome (Topic E M)
  clean is_done t = do
    subs ← clean_done is_done t.subscribers
    Outcome.ok (record t { subscribers = subs })

  pub record IsFit (t : Topic E M) : Type 0 where
    pub valid : IsValid t.subscribers
    pub bound : length t.queue ≤ chan_size

  pub new_topic-IsFit : IsFit new_topic
  new_topic-IsFit = record { valid = new_subscribers-IsValid; bound = omega arith }

  abbrev pub grown : E → Topic E M → Topic E M
  grown e t = record t { queue = t.queue ++ e ∷ [] }

  -- A send finds room and leaves a fit topic, or the queue is full.
  pub put_cases :
      (e : E) (t : Topic E M)
      → ((put e t ≡ some (grown e t))
          × (length t.queue < chan_size)
          × (IsFit t → IsFit (grown e t)))
        ⊎ ((put e t ≡ none) × (chan_size ≤ length t.queue))
  unfolding put
  put_cases e t = elim (Bool-cases (ltb (length t.queue) chan_size)) [
    | inl room ↦ inl (
      rw room refl,
      ground arith,
      λ fit. record { valid = fit.valid; bound = ground (arith, length-append t.queue (e ∷ [])) },
    )
    | inr full ↦ inr (rw full refl, ground arith)
  ]

  -- Sends one after the other; false where one of them waits, and the rest with it.
  pub put_all : List E → Topic E M → Bool × Topic E M
  put_all [] t = (true, t)
  put_all (e ∷ es) t = elim (put e t) [ some t' ↦ put_all es t' | none ↦ (false, t) ]

  pub put_all-IsFit : (es : List E) (t : Topic E M) → IsFit t → IsFit (put_all es t).1
  unfolding put_all
  put_all-IsFit [] t fit = fit
  put_all-IsFit (e ∷ es) t fit = elim (put_cases e t) [
    | inl (done, _, fits) ↦ rw (done, put_all) (put_all-IsFit es (grown e t) (fits fit))
    | inr (full, _) ↦ rw (full, put_all) fit
  ]

  -- With room for all of them the events come last on the queue, in order.
  pub put_all_room :
      (es : List E) (t : Topic E M)
      → length t.queue + length es ≤ chan_size
      → put_all es t ≡ (true, record t { queue = t.queue ++ es })
  unfolding put_all
  put_all_room [] t h = rw (append-nil t.queue) refl
  put_all_room (e ∷ es) t h = elim (put_cases e t) [
    | inl (done, _, _) ↦
        rw
          (
            done,
            put_all,
            put_all_room es (grown e t) (omega (arith, length-append t.queue (e ∷ []))),
            append_assoc t.queue (e ∷ []) es,
          )
          refl
    | inr (full, over) ↦ absurd (omega arith)
  ]

  -- With too little room the queue is filled by the first of them, and the call waits.
  pub put_all_full :
      (room : ℕ) (es : List E) (t : Topic E M)
      → length t.queue + room ≡ chan_size
      → room < length es
      → put_all es t ≡ (false, record t { queue = t.queue ++ take room es })
  unfolding put_all
  put_all_full room [] t b h = absurd (omega arith)
  put_all_full zero (e ∷ es) t b h = elim (put_cases e t) [
    | inl (done, less, _) ↦ absurd (omega arith)
    | inr (full, over) ↦ rw (full, put_all, append-nil t.queue) refl
  ]
  put_all_full (suc room) (e ∷ es) t b h = elim (put_cases e t) [
    | inl (done, less, _) ↦
        rw
          (
            done,
            put_all,
            put_all_full room es (grown e t) (omega (arith, length-append t.queue (e ∷ [])))
                (omega arith),
            append_assoc t.queue (e ∷ []) (take room es),
          )
          refl
    | inr (full, over) ↦ absurd (omega arith)
  ]

  -- A queue that fits loses its first event.
  pub rest-IsFit :
      (t : Topic E M) (e : E) (rest : List E)
      → IsFit t
      → t.queue ≡ e ∷ rest
      → IsFit (record t { queue = rest })
  rest-IsFit t e rest fit first = record {
    valid = fit.valid;
    bound = omega (arith, ap length first, fit.bound);
  }

  pub subscribe_to-IsFit : (ctx : ℕ) (t : Topic E M) → IsFit t → IsFit (subscribe_to ctx t).0
  unfolding subscribe_to
  subscribe_to-IsFit ctx t fit = record {
    valid = subscribe-IsValid ctx t.subscribers fit.valid;
    bound = fit.bound;
  }

  -- A fit topic is cleaned without a panic: its queue and what was received stay, and of the subscribers
  -- those whose context is not done.
  pub clean_lem :
      (is_done : ℕ → Bool) (t : Topic E M)
      → IsFit t
      → (t' : Topic E M) × (clean is_done t ≡ Outcome.ok t')
        × IsFit t'
        × (t'.queue ≡ t.queue)
        × (t'.subscribers.received ≡ t.subscribers.received)
        × Perm t'.subscribers.subs (keep (live (dead is_done)) t.subscribers.subs)
  unfolding clean
  clean_lem is_done t fit =
      let (subs, ran, kept, _, _, received) = clean_done_lem is_done t.subscribers fit.valid in
      (
        record t { subscribers = subs },
        rw ran refl,
        record {
          valid = clean_done-IsValid is_done t.subscribers subs fit.valid ran;
          bound = fit.bound;
        },
        refl,
        received,
        kept,
      )

  -- On a fit topic every subscriber gets the message, in order, or, where one does not receive, the call
  -- waits for ever.
  pub publish_lem :
      (listens : ℕ → Bool) (message : M) (t : Topic E M)
      → IsFit t
      → (all_listen listens t.subscribers.subs ≡ true
          → (t' : Topic E M) × (publish listens message t ≡ Outcome.ok t')
            × IsFit t'
            × (t'.queue ≡ t.queue)
            × (t'.subscribers.subs ≡ t.subscribers.subs)
            × (t'.subscribers.received
                ≡ t.subscribers.received ++ messages message t.subscribers.subs))
        × (all_listen listens t.subscribers.subs ≡ false → publish listens message t ≡ blocked)
  unfolding publish
  publish_lem listens message t fit =
      let sent = send_all_lem listens message t.subscribers fit.valid in
      (
        λ heard. (
          record t {
            subscribers = record t.subscribers {
              received = t.subscribers.received ++ messages message t.subscribers.subs;
            };
          },
          rw (sent, heard) refl,
          record {
            valid = record { distinct = fit.valid.distinct; below = fit.valid.below };
            bound = fit.bound;
          },
          refl,
          refl,
          refl,
        ),
        λ deaf. rw (sent, deaf) refl,
      )
