-- ===== src/Scoring/TieBreak.antt =====
-- The tie-breakers: they make one order when every expiration is known, and none otherwise.
use tea_elephant_memory.Prelude.{
  ◌≡◌, refl, ◌≢◌, subst, sym, ◌⊎◌, inl, inr, true, List, [], ◌∷◌, All, All-weaken, All-weaken₂, In,
  arith, ℤ, ◌<ℤ◌, eq_of_parts, Map, bytes_lt, bytes_lt_trans, bytes_lt_irrefl,
}
use tea_elephant_memory.Clock.{Time, zero_time}
use tea_elephant_memory.Scoring.{
  Candidate, Best, total_score, candidate_name, breaks_tie, better_candidate, consider, select_loop,
  select_best,
}
use tea_elephant_memory.Scoring.Selection.{first, winner, winner-Improves, select_best-winner}

-- The intended order: a higher score, then an earlier expiration, then the name.
abbrev pub Outranks : Candidate → ℤ → Candidate → ℤ → Type 0
Outranks a sa b sb =
    (sb <ℤ sa)
    ⊎ ((sa ≡ sb)
        × ((a.expiration <ℤ b.expiration)
            ⊎ ((a.expiration ≡ b.expiration) × (bytes_lt a.name b.name ≡ true))))

Outranks-trans :
    (a b c : Candidate) (sa sb sc : ℤ)
    → Outranks a sa b sb
    → Outranks b sb c sc
    → Outranks a sa c sc
Outranks-trans a b c sa sb sc h k = ground (arith, bytes_lt_trans a.name b.name c.name)

Outranks-irrefl : (a : Candidate) (s : ℤ) → ¬ Outranks a s a s
Outranks-irrefl a s h = ground (arith, bytes_lt_irrefl a.name)

-- The choice is the old one or outranks it.
abbrev Keeps : Best → Best → Type 0
Keeps r b = (r ≡ b) ⊎ Outranks r.best r.score b.best b.score

Keeps-trans : (r m b : Best) → Keeps r m → Keeps m b → Keeps r b
Keeps-trans r m b (inl e) k = subst (λ x. Keeps x b) (sym e) k
Keeps-trans r m b (inr o) (inl e) = inr (subst (λ x. Outranks r.best r.score x.best x.score) e o)
Keeps-trans r m b (inr o) (inr p) =
    inr (Outranks-trans r.best m.best b.best r.score m.score b.score o p)

not-Outranks-Keeps :
    (c : Candidate) (s : ℤ) (r m : Best)
    → ¬ Outranks c s m.best m.score
    → Keeps r m
    → ¬ Outranks c s r.best r.score
not-Outranks-Keeps c s r m h (inl e) = subst (λ x. ¬ Outranks c s x.best x.score) (sym e) h
not-Outranks-Keeps c s r m h (inr o) = λ p. h (Outranks-trans c r.best m.best s r.score m.score p o)

-- With both expirations known and the best one's name found, the code decides this order.
module _ (a : Candidate) (sa : ℤ) (b : Candidate) (sb : ℤ) (all : List Candidate)
    (ha : a.expiration ≢ zero_time) (hb : b.expiration ≢ zero_time)
    (hn : candidate_name all b.id ≡ b.name) where
  better→Outranks : better_candidate a sa b sb all ≡ true → Outranks a sa b sb
  unfolding better_candidate breaks_tie
  better→Outranks h = ground (
    arith,
    eq_of_parts a.expiration zero_time,
    eq_of_parts b.expiration zero_time,
    eq_of_parts a.expiration b.expiration,
    eq_of_parts sa sb,
  )

  Outranks→better : Outranks a sa b sb → better_candidate a sa b sb all ≡ true
  unfolding better_candidate breaks_tie
  Outranks→better h =
      ground (arith, eq_of_parts a.expiration zero_time, eq_of_parts b.expiration zero_time)

-- Identifiers occur once.
abbrev pub DistinctIds : List Candidate → Type 0
DistinctIds [] = Unit {0}
DistinctIds (c ∷ cs) = All (λ d. c.id ≢ d.id) cs × DistinctIds cs

candidate_name-All :
    (cs : List Candidate) → DistinctIds cs → All (λ c. candidate_name cs c.id ≡ c.name) cs
unfolding candidate_name
candidate_name-All [] h = tt
candidate_name-All (c ∷ cs) h =
    (ground arith, All-weaken₂ (λ d p q. ground arith) cs h.0 (candidate_name-All cs h.1))

-- What a candidate needs for the order to be decided on it.
abbrev Comparable : List Candidate → Candidate → Type 0
Comparable all c = (c.id ≢ 0) × (c.expiration ≢ zero_time) × (candidate_name all c.id ≡ c.name)

module _ (ai_scores : Map ℤ) (last_by_tea : Map Time) (now : Time) where
  abbrev total : Candidate → ℤ
  total = total_score ai_scores last_by_tea now

  -- The choice falls on nothing that a candidate seen outranks.
  record Settles (all : List Candidate) (b : Best) (cs : List Candidate) (r : Best) : Type 0 where
    comparable : Comparable all r.best
    kept : Keeps r b
    unbeaten : All (λ c. ¬ Outranks c (total c) r.best r.score) cs

  consider-Settles :
      (all : List Candidate) (c : Candidate) (b : Best)
      → Comparable all c
      → Comparable all b.best
      → Settles all b (c ∷ []) (consider ai_scores last_by_tea now all c b)
  unfolding consider
  consider-Settles all c b hc hb = ground (
    arith,
    better→Outranks c (total c) b.best b.score all hc.1 hb.1 hb.2,
    Outranks→better c (total c) b.best b.score all hc.1 hb.1 hb.2,
    Outranks-irrefl c (total c),
  )

  select_loop-Settles :
      (all cs : List Candidate) (b : Best)
      → All (Comparable all) cs
      → Comparable all b.best
      → Settles all b cs (select_loop ai_scores last_by_tea now all cs b)
  unfolding select_loop
  select_loop-Settles all [] b h hb = record { comparable = hb; kept = inl refl; unbeaten = tt }
  select_loop-Settles all (c ∷ cs) b h hb =
      let one = consider-Settles all c b h.0 hb in
      let rest = select_loop-Settles all cs _ h.1 one.comparable in
      record {
        comparable = rest.comparable;
        kept = Keeps-trans _ _ b rest.kept one.kept;
        unbeaten = (not-Outranks-Keeps c (total c) _ _ one.unbeaten.0 rest.kept, rest.unbeaten);
      }

  -- Where identifiers are distinct and non-nil and every expiration is known, the winner of a
  -- non-empty list is one of the candidates, and none outranks it in the order of falling score,
  -- then rising expiration, then rising name.
  pub select_best_unbeaten :
      (c : Candidate) (cs : List Candidate)
      → DistinctIds (c ∷ cs)
      → All (λ d. (d.id ≢ 0) × (d.expiration ≢ zero_time)) (c ∷ cs)
      → (w : Candidate) × In w (c ∷ cs)
        × (select_best ai_scores (c ∷ cs) last_by_tea now ≡ (w.id, total w))
        × All (λ d. ¬ Outranks d (total d) w (total w)) (c ∷ cs)
  select_best_unbeaten c cs distinct h =
      let ids = All-weaken _ (λ d p. p.0) (c ∷ cs) h in
      let comparable : All (Comparable (c ∷ cs)) (c ∷ cs) =
        All-weaken₂ (λ d p q. (p.0, p.1, q)) (c ∷ cs) h (candidate_name-All (c ∷ cs) distinct) in
      let found = winner-Improves ai_scores last_by_tea now c cs ids in
      let settled =
        select_loop-Settles (c ∷ cs) cs (first ai_scores last_by_tea now c) comparable.1
          comparable.0 in
      (
        (winner ai_scores last_by_tea now c cs).best,
        found.among,
        rw (← found.valid.own) (select_best-winner ai_scores last_by_tea now c cs),
        subst
            (λ s.
              All (λ d. ¬ Outranks d (total d) (winner ai_scores last_by_tea now c cs).best s)
                (c ∷ cs))
            found.valid.own
            (
              not-Outranks-Keeps c (total c) _ _ (Outranks-irrefl c (total c)) settled.kept,
              settled.unbeaten,
            ),
      )

  -- A candidate of unknown expiration wins a tie by its name even against a known expiration, and
  -- loses the same tie when it is seen first: for two such candidates the answer depends on order.
  pub select_best_order_dependent :
      (known unknown : Candidate)
      → known.id ≢ 0
      → unknown.id ≢ 0
      → known.id ≢ unknown.id
      → known.expiration ≢ zero_time
      → unknown.expiration ≡ zero_time
      → bytes_lt unknown.name known.name ≡ true
      → total known ≡ total unknown
      → (select_best ai_scores (known ∷ unknown ∷ []) last_by_tea now ≡ (unknown.id, total unknown))
        × (select_best ai_scores (unknown ∷ known ∷ []) last_by_tea now ≡ (known.id, total known))
  unfolding select_best select_loop consider better_candidate breaks_tie candidate_name
  select_best_order_dependent known unknown hk hu hd ek eu hn ht =
      ground (arith, eq_of_parts known.expiration zero_time)
