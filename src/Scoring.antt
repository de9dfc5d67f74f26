-- ===== src/Scoring.antt =====
-- internal/scoring/scoring.go: the selection of the tea of the day.
pub mod Bounds
pub mod Selection
pub mod TieBreak
pub mod Logging
mod Tests
use tea_elephant_memory.Prelude.{
  ℕ, ◌*◌, Bool, true, false, Option, none, some, List, [], ◌∷◌, ℤ, pos, negsuc, ◌+ℤ◌, ltb_ℤ, leb_ℤ,
  ◌==◌, ◌||◌, if◌then◌else◌, Bytes, bytes_lt, Map, not,
}
use tea_elephant_memory.Clock.{Time, Duration, zero_time, is_zero, before, after, time_sub, hours}

abbrev pub ai_score_min : ℤ
ai_score_min = pos 0

abbrev pub ai_score_max : ℤ
ai_score_max = pos 15

abbrev pub recent_24h : Duration
recent_24h = hours 24

abbrev pub recent_48h : Duration
recent_48h = hours 48

abbrev pub penalty_within_24h : ℤ
penalty_within_24h = negsuc 4

abbrev pub penalty_within_48h : ℤ
penalty_within_48h = negsuc 2

abbrev pub exp_soon_threshold : Duration
exp_soon_threshold = hours (7 * 24)

abbrev pub exp_upcoming_threshold : Duration
exp_upcoming_threshold = hours (30 * 24)

abbrev pub bonus_exp_soon : ℤ
bonus_exp_soon = pos 3

abbrev pub bonus_exp_upcoming : ℤ
bonus_exp_upcoming = pos 1

-- -1 << 30
abbrev pub initial_best_score : ℤ
initial_best_score = negsuc 1_073_741_823

pub record Candidate : Type 0 where
  pub id : ℕ
  pub name : Bytes
  pub expiration : Time

-- Candidate{}
abbrev pub no_candidate : Candidate
no_candidate = record { id = 0; name = []; expiration = zero_time }

clamp_score : ℤ → ℤ
clamp_score v =
    if ltb_ℤ v ai_score_min then ai_score_min else if ltb_ℤ ai_score_max v then ai_score_max else v

pub clamped_ai_score : Map ℤ → ℕ → ℤ
unfolding clamp_score
clamped_ai_score ai_scores id = elim (ai_scores id) [ none ↦ pos 0 | some v ↦ clamp_score v ]

penalty_after : Duration → ℤ
penalty_after diff =
    if leb_ℤ diff recent_24h
    then penalty_within_24h
    else if leb_ℤ diff recent_48h
    then penalty_within_48h
    else pos 0

pub recent_penalty : Map Time → ℕ → Time → ℤ
unfolding penalty_after time_sub
recent_penalty last_by_tea id now = elim (last_by_tea id) [
  | none ↦ pos 0
  | some last ↦ penalty_after (time_sub now last)
]

pub expiration_bonus : Time → Time → ℤ
unfolding time_sub
expiration_bonus exp now =
    if is_zero exp
    then pos 0
    else let delta = time_sub exp now in
      if leb_ℤ delta exp_soon_threshold
      then bonus_exp_soon
      else if leb_ℤ delta exp_upcoming_threshold
      then bonus_exp_upcoming
      else pos 0

-- The name of the first candidate with the identifier.
pub candidate_name : List Candidate → ℕ → Bytes
candidate_name [] id = []
candidate_name (c ∷ cs) id = if c.id == id then c.name else candidate_name cs id

-- The tie-breakers, at equal scores.
pub breaks_tie : Candidate → Candidate → List Candidate → Bool
breaks_tie curr best candidates =
    let by_name = bytes_lt curr.name (candidate_name candidates best.id) in
    if is_zero curr.expiration
    then by_name
    else if is_zero best.expiration || before curr.expiration best.expiration
    then true
    else if after curr.expiration best.expiration
    then false
    else by_name

pub better_candidate : Candidate → ℤ → Candidate → ℤ → List Candidate → Bool
better_candidate curr curr_score best best_score candidates =
    if ltb_ℤ best_score curr_score
    then true
    else if ltb_ℤ curr_score best_score
    then false
    else breaks_tie curr best candidates

-- The loop's variables.
pub record Best : Type 0 where
  pub best : Candidate
  pub score : ℤ

abbrev pub initial : Best
initial = record { best = no_candidate; score = initial_best_score }

module _ (ai_scores : Map ℤ) (last_by_tea : Map Time) (now : Time) where
  unfoldable pub total_score : Candidate → ℤ
  total_score c =
      pos 0
      +ℤ clamped_ai_score ai_scores c.id
      +ℤ recent_penalty last_by_tea c.id now
      +ℤ expiration_bonus c.expiration now

  -- One round of the loop.
  pub consider : List Candidate → Candidate → Best → Best
  consider candidates c b =
      if b.best.id == 0 || better_candidate c (total_score c) b.best b.score candidates
      then record { best = c; score = total_score c }
      else b

  pub select_loop : List Candidate → List Candidate → Best → Best
  select_loop candidates [] b = b
  select_loop candidates (c ∷ cs) b = select_loop candidates cs (consider candidates c b)

-- The identifier of the best tea and its score.
pub select_best : Map ℤ → List Candidate → Map Time → Time → ℕ × ℤ
select_best ai_scores candidates last_by_tea now =
    let b = select_loop ai_scores last_by_tea now candidates candidates initial in
    (b.best.id, b.score)
