-- ===== src/Scoring/Tests.antt =====
-- Instances of the theorems on the selection at concrete candidates, and test runs.
use tea_elephant_memory.Prelude.{
  ℕ, ◌≡◌, refl, ◌≢◌, none, List, [], ◌∷◌, All, In, arith, ℤ, pos, negsuc, ◌≤ℤ◌, ◌+ℤ◌, ◌-ℤ◌, Map,
  insert, bytes_lt, Bytes, true,
}
use tea_elephant_memory.Clock.{Time, zero_time, time_sub}
use tea_elephant_memory.Scoring.{
  Candidate, clamped_ai_score, recent_penalty, expiration_bonus, total_score, candidate_name,
  breaks_tie, better_candidate, consider, select_loop, select_best,
}
use tea_elephant_memory.Scoring.Bounds.{Between, total_score_bounds}
use tea_elephant_memory.Scoring.Logging.{
  Message, LogEntry, log_entry, select_best_with_logging, select_best_with_logging-select_best,
}
use tea_elephant_memory.Scoring.Selection.{select_best_optimal}
use tea_elephant_memory.Scoring.TieBreak.{
  Outranks, select_best_unbeaten, select_best_order_dependent,
}

-- A noon in 2025, in nanoseconds since the epoch.
abbrev noon : Time
noon = pos 1_755_777_600_000_000_000

abbrev green : Candidate
green = record { id = 1; name = b'g' ∷ []; expiration = pos 1_756_000_000_000_000_000 }

abbrev black : Candidate
black = record { id = 2; name = b'b' ∷ []; expiration = pos 1_800_000_000_000_000_000 }

abbrev herbal : Candidate
herbal = record { id = 3; name = b'a' ∷ []; expiration = zero_time }

-- Herbal's score makes up for its missing expiration bonus.
abbrev ai : Map ℤ
ai = insert 1 (pos 4) (insert 2 (pos 99) (insert 3 (pos 7) (λ _. none)))

abbrev drunk : Map Time
drunk = insert 2 (pos 1_755_770_000_000_000_000) (λ _. none)

program : Unit {0}
unfolding ◌+ℤ◌ ◌-ℤ◌ time_sub clamped_ai_score recent_penalty expiration_bonus total_score
    candidate_name breaks_tie better_candidate consider select_loop select_best bytes_lt
program = tt

total_score_test : total_score ai drunk noon black ≡ pos 10
unfolding program
total_score_test = refl

total_score_bounds_example : Between (negsuc 4) (pos 18) (total_score ai drunk noon black)
total_score_bounds_example = total_score_bounds ai drunk noon black

abbrev three : List Candidate
three = green ∷ black ∷ herbal ∷ []

select_best_test : select_best ai three drunk noon ≡ (2, pos 10)
unfolding program
select_best_test = refl

abbrev Optimal : List Candidate → Type 0
Optimal cs =
    (w : Candidate) × In w cs
    × (select_best ai cs drunk noon ≡ (w.id, total_score ai drunk noon w))
    × All (λ d. total_score ai drunk noon d ≤ℤ total_score ai drunk noon w) cs

select_best_optimal_example : Optimal three
select_best_optimal_example =
    select_best_optimal ai drunk noon green (black ∷ herbal ∷ []) (omega arith)

abbrev Unbeaten : List Candidate → Type 0
Unbeaten cs =
    (w : Candidate) × In w cs
    × (select_best ai cs drunk noon ≡ (w.id, total_score ai drunk noon w))
    × All (λ d. ¬ Outranks d (total_score ai drunk noon d) w (total_score ai drunk noon w)) cs

known_expirations :
    All (λ (d : Candidate). (d.id ≢ 0) × (d.expiration ≢ zero_time)) (green ∷ black ∷ [])
known_expirations = ground arith

select_best_unbeaten_example : Unbeaten (green ∷ black ∷ [])
select_best_unbeaten_example =
    select_best_unbeaten ai drunk noon green (black ∷ []) (omega arith) known_expirations

tied : total_score ai drunk noon green ≡ total_score ai drunk noon herbal
unfolding program
tied = refl

herbal_first : bytes_lt herbal.name green.name ≡ true
unfolding bytes_lt
herbal_first = refl

green_known : green.expiration ≢ zero_time
green_known = ground arith

select_best_order_dependent_example :
    (select_best ai (green ∷ herbal ∷ []) drunk noon ≡ (3, total_score ai drunk noon herbal))
    × (select_best ai (herbal ∷ green ∷ []) drunk noon ≡ (1, total_score ai drunk noon green))
select_best_order_dependent_example =
    select_best_order_dependent ai drunk noon green herbal (omega arith) (omega arith) (omega arith)
      green_known refl herbal_first tied

abbrev format : ℤ → Bytes
format _ = b't' ∷ []

abbrev id_text : ℕ → Bytes
id_text id = id ∷ []

select_best_with_logging-select_best_example :
    (select_best_with_logging format id_text ai three drunk noon true).0
    ≡ select_best ai three drunk noon
select_best_with_logging-select_best_example =
    select_best_with_logging-select_best format id_text ai drunk noon true three

abbrev entry : Message → Candidate → LogEntry
entry = log_entry format id_text ai drunk noon
