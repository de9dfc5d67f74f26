-- ===== src/Scoring/Logging.antt =====
-- SelectBestWithLogging: the same selection with a callback. The log is the list of the entries
-- handed to the callback; the two formatting functions of other packages are arguments.
use tea_elephant_memory.Prelude.{
  ℕ, ◌≡◌, refl, ◌≢◌, Bool, true, false, not, ◌&&◌, ◌||◌, List, [], ◌∷◌, ◌++◌, ℤ, pos, ◌+ℤ◌, ◌==◌,
  if◌then◌else◌, Bytes, Map, get_or, ==_ne, map, append-nil, append_assoc, int_laws, eq_of_parts,
  All,
}
use tea_elephant_memory.Clock.{Time, zero_time, is_zero}
use tea_elephant_memory.Scoring.{
  Candidate, Best, initial, clamped_ai_score, recent_penalty, expiration_bonus, total_score,
  better_candidate, consider, select_loop, select_best,
}
use tea_elephant_memory.Scoring.Selection.{
  winner, winner-Improves, select_loop-winner, select_best-winner,
}

pub data Message : Type 0 where
  candidate : Message
  selected : Message

pub record LogEntry : Type 0 where
  pub message : Message
  pub name : Bytes
  pub id : Bytes
  pub ai_raw : ℤ
  pub ai_clamped : ℤ
  pub recent_penalty : ℤ
  pub expiration_bonus : ℤ
  pub total : ℤ
  pub last_consumption : Bytes
  pub expiration : Bytes

module _ (format_rfc3339 : Time → Bytes) (id_string : ℕ → Bytes) where
  pub format_time_rfc3339_or_dash : Time → Bytes
  format_time_rfc3339_or_dash t = if is_zero t then b'-' ∷ [] else format_rfc3339 t

  module _ (ai_scores : Map ℤ) (last_by_tea : Map Time) (now : Time) where
    -- The fields of an entry; the two log statements compute the same ones.
    pub log_entry : Message → Candidate → LogEntry
    unfolding format_time_rfc3339_or_dash
    log_entry message c = record {
      message = message;
      name = c.name;
      id = id_string c.id;
      ai_raw = get_or (ai_scores c.id) (pos 0);
      ai_clamped = clamped_ai_score ai_scores c.id;
      recent_penalty = recent_penalty last_by_tea c.id now;
      expiration_bonus = expiration_bonus c.expiration now;
      total =
          clamped_ai_score ai_scores c.id
          +ℤ recent_penalty last_by_tea c.id now
          +ℤ expiration_bonus c.expiration now;
      last_consumption = format_time_rfc3339_or_dash (get_or (last_by_tea c.id) zero_time);
      expiration = format_time_rfc3339_or_dash c.expiration;
    }

    -- One round: log the candidate if there is a callback, then compare as SelectBest does.
    logging_round : Bool → List Candidate → Candidate → Best × List LogEntry → Best × List LogEntry
    unfolding log_entry
    logging_round logs candidates c (b, entries) =
        let entry = log_entry Message.candidate c in
        let taken = b.best.id == 0 || better_candidate c entry.total b.best b.score candidates in
        (
          (if taken then record { best = c; score = entry.total } else b),
          (if logs then entries ++ entry ∷ [] else entries),
        )

    logging_loop :
        Bool → List Candidate → List Candidate → Best × List LogEntry → Best × List LogEntry
    logging_loop logs candidates [] s = s
    logging_loop logs candidates (c ∷ cs) s =
        logging_loop logs candidates cs (logging_round logs candidates c s)

zero_add : (a : ℤ) → pos 0 +ℤ a ≡ a
zero_add a = omega (int_laws, eq_of_parts (pos 0 +ℤ a) a)

-- `logs` says whether the callback is non-nil. The result is the identifier and the score of
-- SelectBest's signature, and the entries logged.
pub select_best_with_logging :
    (format_rfc3339 : Time → Bytes) (id_string : ℕ → Bytes) (ai_scores : Map ℤ)
    (candidates : List Candidate) (last_by_tea : Map Time) (now : Time) (logs : Bool)
    → (ℕ × ℤ) × List LogEntry
select_best_with_logging format_rfc3339 id_string ai_scores candidates last_by_tea now logs =
    let (b, entries) =
      logging_loop format_rfc3339 id_string ai_scores last_by_tea now logs candidates candidates
        (initial, []) in
    let summary =
      log_entry format_rfc3339 id_string ai_scores last_by_tea now Message.selected b.best in
    (
      (b.best.id, b.score),
      if logs && not (b.best.id == 0) then entries ++ summary ∷ [] else entries,
    )

module _ (format_rfc3339 : Time → Bytes) (id_string : ℕ → Bytes) (ai_scores : Map ℤ)
    (last_by_tea : Map Time) (now : Time) where
  abbrev entry_of : Message → Candidate → LogEntry
  entry_of = log_entry format_rfc3339 id_string ai_scores last_by_tea now

  -- The total that an entry shows is the total score of its candidate.
  log_entry-total :
      (m : Message) (c : Candidate) → (entry_of m c).total ≡ total_score ai_scores last_by_tea now c
  unfolding log_entry total_score
  log_entry-total m c = rw zero_add

  logging_round_lem :
      (logs : Bool) (all : List Candidate) (c : Candidate) (b : Best) (entries : List LogEntry)
      → logging_round format_rfc3339 id_string ai_scores last_by_tea now logs all c (b, entries) ≡ (
        consider ai_scores last_by_tea now all c b,
        (if logs then entries ++ entry_of Message.candidate c ∷ [] else entries),
      )
  unfolding logging_round consider
  logging_round_lem logs all c b entries = rw (log_entry-total Message.candidate c)

  logging_loop_lem :
      (logs : Bool) (all cs : List Candidate) (b : Best) (entries : List LogEntry)
      → logging_loop format_rfc3339 id_string ai_scores last_by_tea now logs all cs (b, entries) ≡ (
        select_loop ai_scores last_by_tea now all cs b,
        (if logs then entries ++ map (entry_of Message.candidate) cs else entries),
      )
  unfolding logging_loop select_loop
  logging_loop_lem true all [] b entries = rw append-nil
  logging_loop_lem false all [] b entries = refl
  logging_loop_lem true all (c ∷ cs) b entries =
      rw (logging_round_lem true all c b entries, logging_loop_lem true all cs _ _, append_assoc)
  logging_loop_lem false all (c ∷ cs) b entries =
      rw (logging_round_lem false all c b entries, logging_loop_lem false all cs _ _)

  -- With or without a callback the answer is that of SelectBest, for every input.
  pub select_best_with_logging-select_best :
      (logs : Bool) (candidates : List Candidate)
      → (select_best_with_logging format_rfc3339 id_string ai_scores candidates last_by_tea now
          logs).0
        ≡ select_best ai_scores candidates last_by_tea now
  unfolding select_best_with_logging select_best
  select_best_with_logging-select_best logs candidates =
      rw (logging_loop_lem logs candidates candidates initial [])

  -- A callback sees each candidate once, in order, and then the winner with the score returned;
  -- without a callback nothing is logged.
  pub select_best_with_logging_entries :
      (c : Candidate) (cs : List Candidate)
      → All (λ d. d.id ≢ 0) (c ∷ cs)
      → (w : Candidate) × (select_best ai_scores (c ∷ cs) last_by_tea now
          ≡ (w.id, (entry_of Message.selected w).total))
        × ((select_best_with_logging format_rfc3339 id_string ai_scores
              (c ∷ cs)
              last_by_tea
              now
              true).1
            ≡ map (entry_of Message.candidate) (c ∷ cs) ++ entry_of Message.selected w ∷ [])
        × ((select_best_with_logging format_rfc3339 id_string ai_scores
              (c ∷ cs)
              last_by_tea
              now
              false).1
            ≡ [])
  unfolding select_best_with_logging
  select_best_with_logging_entries c cs h =
      let found = winner-Improves ai_scores last_by_tea now c cs h in
      let w = winner ai_scores last_by_tea now c cs in
      let taken = select_loop-winner ai_scores last_by_tea now c cs in
      (
        w.best,
        rw (log_entry-total Message.selected w.best, ← found.valid.own)
            (select_best-winner ai_scores last_by_tea now c cs),
        rw (
          logging_loop_lem true (c ∷ cs) (c ∷ cs) initial [],
          taken,
          ==_ne w.best.id 0 found.valid.chosen,
        ),
        rw (logging_loop_lem false (c ∷ cs) (c ∷ cs) initial []),
      )
