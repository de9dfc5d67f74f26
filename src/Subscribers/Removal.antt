-- ===== src/Subscribers/Removal.antt =====
-- The second loop of CleanDone: moving the tail into the gaps keeps exactly the live subscribers.
use mathlib.Core.List.Perm
use mathlib.Core.List.{perm_append_singleton}
use mathlib.Core.Path.{subst₃}
use tea_elephant_memory.Prelude.{
  ℕ, zero, suc, ◌+◌, ◌-◌, ◌≤◌, ◌<◌, ◌≡◌, refl, sym, ap, subst, ◌∙◌, inl, inr, Bool, true,
  Bool-cases, some, List, [], ◌∷◌, ◌++◌, length, get_elem?, set, take, All, append-All, keep,
  keep-append, keep-eq_self, length-append, get_elem?-append_middle, set-append_middle, last_cases,
  take-suc, length-take, Perm, append_assoc, append-nil, arith, ltb, if◌then◌else◌, not,
}
use tea_elephant_memory.Subscribers.{Subscriber, ok, store, fill}

module _ (dead : Subscriber → Bool) where
  abbrev pub live : Subscriber → Bool
  live s = not (dead s)

  -- The positions of the dead, counted from i.
  unfoldable pub dead_indices : ℕ → List Subscriber → List ℕ
  dead_indices i [] = []
  dead_indices i (s ∷ ss) = let rest = dead_indices (suc i) ss in if dead s then i ∷ rest else rest

  abbrev AllLive : List Subscriber → Type 0
  AllLive = All (λ s. live s ≡ true)

  dead_indices-nil : (i : ℕ) (v : List Subscriber) → dead_indices i v ≡ [] → AllLive v
  unfolding dead_indices
  dead_indices-nil i [] h = tt
  dead_indices-nil i (s ∷ ss) h = ground (arith, dead_indices-nil (suc i) ss)

  dead_indices-append_live :
      (i : ℕ) (a c : List Subscriber) → AllLive c → dead_indices i (a ++ c) ≡ dead_indices i a
  unfolding dead_indices
  dead_indices-append_live i [] [] h = refl
  dead_indices-append_live i [] (s ∷ c) h =
      ground (arith, dead_indices-append_live (suc i) [] c h.1)
  dead_indices-append_live i (s ∷ a) c h = ground (arith, dead_indices-append_live (suc i) a c h)

  pub length-dead_indices-le : (i : ℕ) (v : List Subscriber) → length (dead_indices i v) ≤ length v
  unfolding dead_indices
  length-dead_indices-le i [] = omega arith
  length-dead_indices-le i (s ∷ ss) = ground (arith, length-dead_indices-le (suc i) ss)

  -- The last dead subscriber, with what stands before and after it.
  record LastDead (i : ℕ) (v : List Subscriber) (ks : List ℕ) (r : ℕ) : Type 0 where
    before : List Subscriber
    found : Subscriber
    behind : List Subscriber
    split : v ≡ before ++ found ∷ behind
    is_dead : dead found ≡ true
    live_behind : AllLive behind
    position : r ≡ i + length before
    earlier : dead_indices i before ≡ ks

  LastDead-cons :
      {i : ℕ} {ss : List Subscriber} {ks : List ℕ} {r : ℕ} (s : Subscriber)
      → LastDead (suc i) ss ks r
      → LastDead i (s ∷ ss) (if dead s then i ∷ ks else ks) r
  unfolding dead_indices
  LastDead-cons {i} s l = record {
    before = s ∷ l.before;
    found = l.found;
    behind = l.behind;
    split = ap (◌∷◌ s) l.split;
    is_dead = l.is_dead;
    live_behind = l.live_behind;
    position = omega (arith, l.position);
    earlier = ap (λ js. if dead s then i ∷ js else js) l.earlier;
  }

  last_dead :
      (i : ℕ) (v : List Subscriber) (ks : List ℕ) (r : ℕ)
      → dead_indices i v ≡ ks ++ r ∷ []
      → LastDead i v ks r
  unfolding dead_indices
  last_dead i [] [] r h = absurd (ground arith)
  last_dead i [] (k ∷ ks) r h = absurd (ground arith)
  last_dead i (s ∷ ss) [] r h = elim (Bool-cases (dead s)) [
    | inl d ↦ record {
      before = [];
      found = s;
      behind = ss;
      split = refl;
      is_dead = d;
      live_behind = dead_indices-nil (suc i) ss (ground arith);
      position = ground arith;
      earlier = refl;
    }
    | inr d ↦
        subst (λ ks. LastDead i (s ∷ ss) ks r) (rw d)
          (LastDead-cons s (last_dead (suc i) ss [] r (ground arith)))
  ]
  last_dead i (s ∷ ss) (k ∷ ks) r h = elim (Bool-cases (dead s)) [
    | inl d ↦
        subst (λ js. LastDead i (s ∷ ss) js r) (ground arith)
          (LastDead-cons s (last_dead (suc i) ss ks r (ground arith)))
    | inr d ↦
        subst (λ js. LastDead i (s ∷ ss) js r) (rw d)
          (LastDead-cons s (last_dead (suc i) ss (k ∷ ks) r (ground arith)))
  ]

  -- What one round leaves: a shorter list with the same live subscribers, and one more spare element.
  record Round (v : List Subscriber) (earlier : List ℕ) (moved : Subscriber) (t : List Subscriber)
      (written : List Subscriber) : Type 0 where
    shorter : List Subscriber
    spare : Subscriber
    result : written ≡ shorter ++ spare ∷ t
    remaining : dead_indices 0 shorter ≡ earlier
    same_live : Perm (keep live shorter) (keep live v)

  keep-dead :
      (a : List Subscriber) (d : Subscriber) (b : List Subscriber)
      → dead d ≡ true
      → AllLive b
      → keep live (a ++ d ∷ b) ≡ keep live a ++ b
  unfolding keep
  keep-dead a d b h l = rw (keep-append live a (d ∷ b)) (ground (arith, keep-eq_self live b l))

  Round-at_end :
      (a : List Subscriber) (d : Subscriber) (t : List Subscriber)
      → dead d ≡ true
      → Round (a ++ d ∷ []) (dead_indices 0 a) d t (set ((a ++ d ∷ []) ++ t) (length a) d)
  Round-at_end a d t h = record {
    shorter = a;
    spare = d;
    result = rw (append_assoc a (d ∷ []) t, set-append_middle a t d d);
    remaining = refl;
    same_live = rw (keep-dead a d [] h tt, append-nil) (Perm.refl _);
  }

  Round-inside :
      (a : List Subscriber) (d : Subscriber) (b : List Subscriber) (l : Subscriber)
      (t : List Subscriber)
      → dead d ≡ true
      → AllLive (b ++ l ∷ [])
      → Round
          (a ++ d ∷ (b ++ l ∷ []))
          (dead_indices 0 a)
          l
          t
          (set ((a ++ d ∷ (b ++ l ∷ [])) ++ t) (length a) l)
  Round-inside a d b l t h lives =
      let (before, at) = append-All (λ s. live s ≡ true) b (l ∷ []) lives in
      let moved : AllLive (l ∷ b) = (at.0, before) in
      record {
        shorter = a ++ l ∷ b;
        spare = l;
        result = rw (
          append_assoc a (d ∷ (b ++ l ∷ [])) t,
          append_assoc b (l ∷ []) t,
          set-append_middle a (b ++ l ∷ t) d l,
          append_assoc a (l ∷ b) (l ∷ t),
        );
        remaining = dead_indices-append_live 0 a (l ∷ b) moved;
        same_live =
            rw
              (
                keep-dead a d (b ++ l ∷ []) h lives,
                keep-append live a (l ∷ b),
                keep-eq_self live (l ∷ b) moved,
              )
              (Perm.append_left (keep live a) (Perm.symm (perm_append_singleton l b)));
      }

  -- What a round reads: the last element before the spare ones.
  abbrev Moves : List Subscriber → List Subscriber → List ℕ → ℕ → Type 0
  Moves v t ks r =
      (moved : Subscriber) × (get_elem? (v ++ t) (length v - 1) ≡ some moved)
      × (r < length v)
      × Round v ks moved t (set (v ++ t) r moved)

  split_Moves :
      (a : List Subscriber) (d : Subscriber) (b t : List Subscriber)
      → dead d ≡ true
      → AllLive b
      → Moves (a ++ d ∷ b) t (dead_indices 0 a) (length a)
  split_Moves a d b t h lives = elim (last_cases b) [
    | inl e ↦
        let at_end : length (a ++ d ∷ []) - 1 ≡ length a =
          omega (arith, length-append a (d ∷ [])) in
        rw e (
          d,
          rw (at_end, append_assoc a (d ∷ []) t) (get_elem?-append_middle a t d),
          omega (arith, length-append a (d ∷ [])),
          Round-at_end a d t h,
        )
    | inr (b', l, e) ↦
        let size : length (a ++ d ∷ (b' ++ l ∷ [])) ≡ length (a ++ d ∷ b') + 1 = omega (
          arith,
          length-append a (d ∷ (b' ++ l ∷ [])),
          length-append b' (l ∷ []),
          length-append a (d ∷ b'),
        ) in
        let at_end : length (a ++ d ∷ (b' ++ l ∷ [])) - 1 ≡ length (a ++ d ∷ b') =
          omega (arith, size) in
        let regroup : (a ++ d ∷ (b' ++ l ∷ [])) ++ t ≡ (a ++ d ∷ b') ++ l ∷ t = simp append_assoc in
        rw e (
          l,
          rw (at_end, regroup) (get_elem?-append_middle (a ++ d ∷ b') t l),
          omega (arith, size, length-append a (d ∷ b')),
          Round-inside a d b' l t h (subst AllLive e lives),
        )
  ]

  round_lem :
      (v t : List Subscriber) (ks : List ℕ) (r : ℕ)
      → dead_indices 0 v ≡ ks ++ r ∷ []
      → Moves v t ks r
  round_lem v t ks r h =
      let l = last_dead 0 v ks r h in
      let at : r ≡ length l.before = omega (arith, l.position) in
      subst₃ (λ w js p. Moves w t js p) (sym l.split) l.earlier (sym at)
        (split_Moves l.before l.found l.behind t l.is_dead l.live_behind)

  -- What the loop leaves in front: the live subscribers in some order; and as many spare ones
  -- as there are collected positions.
  pub record Filled (v : List Subscriber) (spares : ℕ) (result : List Subscriber) : Type 0 where
    pub front : List Subscriber
    pub rest : List Subscriber
    pub split : result ≡ front ++ rest
    pub spare : length rest ≡ spares
    pub kept : Perm front (keep live v)

  all_live : (v : List Subscriber) → dead_indices 0 v ≡ [] → Perm v (keep live v)
  all_live v h = rw (keep-eq_self live v (dead_indices-nil 0 v h)) (Perm.refl v)

  pub fill_lem :
      (m : ℕ) (for_remove : List ℕ) (v t : List Subscriber)
      → dead_indices 0 v ≡ take m for_remove
      → m ≤ length for_remove
      → length t + m ≡ length for_remove
      → (result : List Subscriber) × (fill m for_remove (v ++ t) ≡ ok result)
        × Filled v (length for_remove) result
  unfolding fill store
  fill_lem zero for_remove v t h le e = (
    v ++ t,
    refl,
    record { front = v; rest = t; split = refl; spare = omega arith; kept = all_live v h },
  )
  fill_lem (suc m) for_remove v t h le e =
      let (r, found, split) = take-suc m for_remove le in
      let (moved, read, inside, round) = round_lem v t (take m for_remove) r (h ∙ split) in
      let enough : suc m ≤ length v =
        omega (arith, length-dead_indices-le 0 v, ap length h, length-take (suc m) for_remove le) in
      let total = length-append v t in
      let last : length (v ++ t) - length for_remove + m ≡ length v - 1 = omega (arith, total) in
      let fits : ltb r (length (v ++ t)) ≡ true = ground (arith, total) in
      let (result, run, filled) =
        fill_lem m for_remove round.shorter (round.spare ∷ t) round.remaining (omega arith)
          (omega arith) in
      (
        result,
        rw (found, last, read, fits, round.result) run,
        record {
          front = filled.front;
          rest = filled.rest;
          split = filled.split;
          spare = filled.spare;
          kept = Perm.trans filled.kept round.same_live;
        },
      )
