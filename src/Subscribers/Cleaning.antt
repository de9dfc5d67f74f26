-- ===== src/Subscribers/Cleaning.antt =====
-- CleanDone as a whole: which subscribers stay, which channels are closed, and that it never panics.
use mathlib.Core.List.Perm
use mathlib.Core.List.{
  Nodup-cons, mem-cons_self, mem-cons_of_mem, mem-append_right, perm_middle, perm_append_singleton,
}
use tea_elephant_memory.Prelude.{
  ℕ, suc, ◌-◌, ◌<◌, ◌≡◌, refl, sym, ap, subst, inl, inr, Bool, true, false, Bool-cases, List, [],
  ◌∷◌, ◌++◌, map, length, take, keep, length-append, take-append, take-length, Perm, Mem, Nodup,
  append_assoc, append-nil, arith, ◌==◌,
}
use tea_elephant_memory.Subscribers.{
  Subscriber, State, ok, elem, close_channel, scan, fill, clean_done,
}
use tea_elephant_memory.Subscribers.Removal.{live, dead_indices, fill_lem}

abbrev pub chans : List Subscriber → List ℕ
chans = map (λ s. s.ch)

-- Every channel known to the collection: those of its subscribers and those already closed.
abbrev pub channels : {T : Type 0} → State T → List ℕ
channels st = chans st.subs ++ st.closed

-- The channels are distinct, and older than the next one to be made: no subscriber's is closed.
pub record IsValid {T : Type 0} (st : State T) : Type 0 where
  pub distinct : Nodup (channels st)
  pub below : (c : ℕ) → Mem c (channels st) → c < st.fresh

elem-Mem : (a : ℕ) (xs : List ℕ) → elem a xs ≡ true → Mem a xs
unfolding elem
elem-Mem a [] h = absurd (ground arith)
elem-Mem a (x ∷ xs) h = elim (Bool-cases (a == x)) [
  | inl e ↦ let same : a ≡ x = ground arith in subst (λ y. Mem a (y ∷ xs)) same mem-cons_self
  | inr e ↦ mem-cons_of_mem x (elem-Mem a xs (ground arith))
]

pub elem-eq-false : (a : ℕ) (xs : List ℕ) → ¬ Mem a xs → elem a xs ≡ false
elem-eq-false a xs h = elim (Bool-cases (elem a xs)) [
  | inl e ↦ absurd (h (elem-Mem a xs e))
  | inr e ↦ e
]

module _ (is_done : ℕ → Bool) where
  abbrev pub dead : Subscriber → Bool
  dead s = is_done s.ctx

  -- The first loop closes the channels of the done subscribers, in order, and finds their positions.
  scan_lem :
      (i : ℕ) (ss : List Subscriber) (closed : List ℕ)
      → Nodup (chans ss ++ closed)
      → scan is_done i ss closed ≡ ok (dead_indices dead i ss, closed ++ chans (keep dead ss))
  unfolding scan close_channel dead_indices keep
  scan_lem i [] closed h = rw append-nil
  scan_lem i (s ∷ ss) closed h = elim (Bool-cases (is_done s.ctx)) [
    | inl d ↦
        let open_still =
          elem-eq-false s.ch closed (λ m. (Nodup-cons.0 h).0 (mem-append_right (chans ss) m)) in
        let moved : Perm (chans ss ++ (closed ++ s.ch ∷ [])) (s.ch ∷ (chans ss ++ closed)) =
          Perm.trans (Perm.append_left (chans ss) (perm_append_singleton s.ch closed))
            (perm_middle (chans ss) closed) in
        rw (d, scan, open_still)
          (rw (scan_lem (suc i) ss (closed ++ s.ch ∷ []) (Perm.nodup (Perm.symm moved) h))
            (rw append_assoc))
    | inr l ↦ rw (l, scan) (scan_lem (suc i) ss closed (Nodup-cons.0 h).1)
  ]

module _ {T : Type 0} (is_done : ℕ → Bool) (st : State T) where
  -- CleanDone never panics: it ends, keeps exactly the subscribers whose context is not done, in
  -- some order, closes exactly the channels of the others, in order, and changes nothing else.
  pub clean_done_lem :
      IsValid st
      → (st' : State T) × (clean_done is_done st ≡ ok st')
        × Perm st'.subs (keep (live (dead is_done)) st.subs)
        × (st'.closed ≡ st.closed ++ chans (keep (dead is_done) st.subs))
        × (st'.fresh ≡ st.fresh)
        × (st'.received ≡ st.received)
  unfolding clean_done
  clean_done_lem v =
      let rem = dead_indices (dead is_done) 0 st.subs in
      let (result, run, filled) =
        fill_lem (dead is_done) (length rem) rem st.subs [] (sym (take-length rem)) (omega arith)
          (omega arith) in
      let run' : fill (length rem) rem st.subs ≡ ok result =
        subst (λ xs. fill (length rem) rem xs ≡ ok result) (append-nil st.subs) run in
      let size : length result - length rem ≡ length filled.front =
        omega
          (arith, ap length filled.split, length-append filled.front filled.rest, filled.spare) in
      let front : take (length result - length rem) result ≡ filled.front =
        rw (size, filled.split) (take-append filled.front filled.rest) in
      (
        record st {
          subs = filled.front;
          closed = st.closed ++ chans (keep (dead is_done) st.subs);
        },
        rw (scan_lem is_done 0 st.subs st.closed v.distinct, run', front),
        filled.kept,
        refl,
        refl,
        refl,
      )
