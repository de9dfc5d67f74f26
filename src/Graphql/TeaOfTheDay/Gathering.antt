-- ===== src/Graphql/TeaOfTheDay/Gathering.antt =====
-- What the loop over the records of the collections gathers.
pub mod Elements
pub mod First
pub mod Earlier
pub mod Loop
use tea_elephant_memory.Prelude.{
  ℕ, zero, suc, ◌≡◌, ◌≢◌, refl, ap, sym, subst, ◌∙◌, ◌⊎◌, inl, inr, Bool, Bool-cases, true, false,
  Option, Option-cases, none, some, List, [], ◌∷◌, ◌++◌, length, get_elem?, get_elem?-append_middle,
  ◌==◌, ==_refl, if◌then◌else◌, Bytes, In, insert, arith, append-nil, append_assoc,
}
use tea_elephant_memory.Clock.{Time, before}
use tea_elephant_memory.Scoring.{Candidate}
use tea_elephant_memory.Models.{QrRecord}
use tea_elephant_memory.Graphql.TeaOfTheDay.{
  Gathered, nothing, set_expiration, add_tea, earlier_record, gather_record, gather_records,
}

-- A candidate stands for the earliest record of its tea that was seen, and knows its own place.
pub record Stands (g : Gathered) (i : ℕ) (c : Candidate) : Type 0 where
  pub rec : QrRecord
  pub earliest : g.earliest_rec c.id ≡ some rec
  pub expires : c.expiration ≡ rec.expiration_date
  pub place : g.id_to_idx c.id ≡ some i

-- The tea of the earliest record, and where it was seen.
pub record Earliest (g : Gathered) (seen : List QrRecord) (id : ℕ) (rec : QrRecord) : Type 0 where
  pub of_tea : rec.tea.id ≡ id
  pub among : In rec seen
  pub candidate : Candidate
  pub index : ℕ
  pub placed : g.id_to_idx id ≡ some index
  pub found : get_elem? g.candidates index ≡ some candidate
  pub same_id : candidate.id ≡ id

-- After the records that were seen.
pub record IsGathered (seen : List QrRecord) (g : Gathered) : Type 0 where
  pub stand : (i : ℕ) (c : Candidate) → get_elem? g.candidates i ≡ some c → Stands g i c
  pub earliest : (id : ℕ) (rec : QrRecord) → g.earliest_rec id ≡ some rec → Earliest g seen id rec
  pub none_earlier :
      (rec : QrRecord)
      → In rec seen
      → (first : QrRecord) × (g.earliest_rec rec.tea.id ≡ some first)
        × (before rec.expiration_date first.expiration_date ≡ false)

pub nothing-IsGathered : IsGathered [] nothing
nothing-IsGathered = record {
  stand = λ i c h. absurd (ground arith);
  earliest = λ id rec h. absurd (ground arith);
  none_earlier = λ rec h. absurd h;
}
