-- ===== src/Scoring/Bounds.antt =====
-- Bounds of the parts of a score and of the whole.
use tea_elephant_memory.Prelude.{ℕ, arith, ℤ, pos, negsuc, ◌≤ℤ◌, +ℤ_parts, Map}
use tea_elephant_memory.Clock.{Time, Duration}
use tea_elephant_memory.Scoring.{
  Candidate, clamp_score, clamped_ai_score, penalty_after, recent_penalty, expiration_bonus,
  total_score,
}

abbrev pub Between : ℤ → ℤ → ℤ → Type 0
Between lo hi x = (lo ≤ℤ x) × (x ≤ℤ hi)

clamp_score_bounds : (v : ℤ) → Between (pos 0) (pos 15) (clamp_score v)
unfolding clamp_score
clamp_score_bounds v = ground arith

pub clamped_ai_score_bounds :
    (m : Map ℤ) (id : ℕ) → Between (pos 0) (pos 15) (clamped_ai_score m id)
unfolding clamped_ai_score
clamped_ai_score_bounds m id = ground (arith)

penalty_after_bounds : (d : Duration) → Between (negsuc 4) (pos 0) (penalty_after d)
unfolding penalty_after
penalty_after_bounds d = ground arith

pub recent_penalty_bounds :
    (m : Map Time) (id : ℕ) (now : Time) → Between (negsuc 4) (pos 0) (recent_penalty m id now)
unfolding recent_penalty
recent_penalty_bounds m id now = ground arith

pub expiration_bonus_bounds : (exp now : Time) → Between (pos 0) (pos 3) (expiration_bonus exp now)
unfolding expiration_bonus
expiration_bonus_bounds exp now = ground arith

-- Whatever the AI answers and whatever was drunk, a total score lies between -5 and 18.
pub total_score_bounds :
    (ai_scores : Map ℤ) (last_by_tea : Map Time) (now : Time) (c : Candidate)
    → Between (negsuc 4) (pos 18) (total_score ai_scores last_by_tea now c)
unfolding total_score
total_score_bounds ai_scores last_by_tea now c = omega (
  arith,
  +ℤ_parts,
  clamped_ai_score_bounds ai_scores c.id,
  recent_penalty_bounds last_by_tea c.id now,
  expiration_bonus_bounds c.expiration now,
)
