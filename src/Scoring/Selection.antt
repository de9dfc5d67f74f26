-- ===== src/Scoring/Selection.antt =====
-- What the selection loop promises: the winner is a candidate, and no total score is higher.
use tea_elephant_memory.Prelude.{
  ◌≡◌, refl, ◌≢◌, subst, inl, List, [], ◌∷◌, All, In, arith, ℤ, ◌≤ℤ◌, Map,
}
use tea_elephant_memory.Clock.{Time}
use tea_elephant_memory.Scoring.{
  Candidate, Best, initial, total_score, better_candidate, consider, select_loop, select_best,
}

module _ (ai_scores : Map ℤ) (last_by_tea : Map Time) (now : Time) where
  -- A candidate is chosen, and the score kept is its own.
  pub record IsScored (b : Best) : Type 0 where
    pub chosen : b.best.id ≢ 0
    pub own : b.score ≡ total_score ai_scores last_by_tea now b.best

  -- What a round, and so the loop, leaves: a valid choice, no lower than before, among those seen.
  pub record Improves (b : Best) (cs : List Candidate) (r : Best) : Type 0 where
    pub valid : IsScored r
    pub grows : b.score ≤ℤ r.score
    pub highest : All (λ c. total_score ai_scores last_by_tea now c ≤ℤ r.score) cs
    pub among : In r.best (b.best ∷ cs)

  consider-Improves :
      (all : List Candidate) (c : Candidate) (b : Best)
      → c.id ≢ 0
      → IsScored b
      → Improves b (c ∷ []) (consider ai_scores last_by_tea now all c b)
  unfolding consider better_candidate
  consider-Improves all c b h v = ground arith

  select_loop-Improves :
      (all cs : List Candidate) (b : Best)
      → All (λ c. c.id ≢ 0) cs
      → IsScored b
      → Improves b cs (select_loop ai_scores last_by_tea now all cs b)
  unfolding select_loop
  select_loop-Improves all [] b h v = record {
    valid = v;
    grows = omega arith;
    highest = tt;
    among = inl refl;
  }
  select_loop-Improves all (c ∷ cs) b h v =
      let one = consider-Improves all c b h.0 v in
      let rest = select_loop-Improves all cs _ h.1 one.valid in
      record {
        valid = rest.valid;
        grows = omega (arith, one.grows, rest.grows);
        highest = (omega (arith, one.highest.0, rest.grows), rest.highest);
        among = ground (arith, one.among, rest.among);
      }

  -- The first candidate is taken whatever its score, and the loop goes on from it.
  abbrev pub first : Candidate → Best
  first c = record { best = c; score = total_score ai_scores last_by_tea now c }

  abbrev pub winner : Candidate → List Candidate → Best
  winner c cs = select_loop ai_scores last_by_tea now (c ∷ cs) cs (first c)

  pub winner-Improves :
      (c : Candidate) (cs : List Candidate)
      → All (λ d. d.id ≢ 0) (c ∷ cs)
      → Improves (first c) cs (winner c cs)
  winner-Improves c cs h =
      select_loop-Improves (c ∷ cs) cs (first c) h.1 (record { chosen = h.0; own = refl })

  pub select_loop-winner :
      (c : Candidate) (cs : List Candidate)
      → select_loop ai_scores last_by_tea now (c ∷ cs) (c ∷ cs) initial ≡ winner c cs
  unfolding select_loop consider
  select_loop-winner c cs = refl

  pub select_best-winner :
      (c : Candidate) (cs : List Candidate)
      → select_best ai_scores (c ∷ cs) last_by_tea now
        ≡ ((winner c cs).best.id, (winner c cs).score)
  unfolding select_best
  select_best-winner c cs = rw (select_loop-winner c cs)

  -- The winner of a non-empty list of candidates with non-nil identifiers is one of them, the score
  -- returned is its own total score, and no candidate has a higher one.
  pub select_best_optimal :
      (c : Candidate) (cs : List Candidate)
      → All (λ d. d.id ≢ 0) (c ∷ cs)
      → (w : Candidate) × In w (c ∷ cs)
        × (select_best ai_scores (c ∷ cs) last_by_tea now
            ≡ (w.id, total_score ai_scores last_by_tea now w))
        × All
            (λ d.
              total_score ai_scores last_by_tea now d ≤ℤ total_score ai_scores last_by_tea now w)
            (c ∷ cs)
  select_best_optimal c cs h =
      let found = winner-Improves c cs h in
      (
        (winner c cs).best,
        found.among,
        rw (← found.valid.own) (select_best-winner c cs),
        subst (λ s. All (λ d. total_score ai_scores last_by_tea now d ≤ℤ s) (c ∷ cs))
            found.valid.own (found.grows, found.highest),
      )
