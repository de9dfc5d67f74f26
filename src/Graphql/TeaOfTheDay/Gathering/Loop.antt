-- ===== src/Graphql/TeaOfTheDay/Gathering/Loop.antt =====
-- The loop over the records.
use tea_elephant_memory.Prelude.{
  ◌≡◌, ap, subst, ◌∙◌, inl, inr, Bool-cases, false, Option-cases, some, List, [], ◌∷◌, ◌++◌, Bytes,
  append-nil, append_assoc,
}
use tea_elephant_memory.Clock.{before}
use tea_elephant_memory.Models.{QrRecord}
use tea_elephant_memory.Graphql.TeaOfTheDay.{Gathered, gather_record, gather_records}
use tea_elephant_memory.Graphql.TeaOfTheDay.Gathering.{IsGathered}
use tea_elephant_memory.Graphql.TeaOfTheDay.Gathering.Elements.{In-append_old, In-append_cases}
use tea_elephant_memory.Graphql.TeaOfTheDay.Gathering.First.{add_tea-IsGathered}
use tea_elephant_memory.Graphql.TeaOfTheDay.Gathering.Earlier.{
  earlier_record-after, after-IsGathered,
}

-- A record of a tea that was seen, with no earlier expiration.
unchanged-IsGathered :
    (seen : List QrRecord) (g : Gathered) (rec prev : QrRecord)
    → IsGathered seen g
    → g.earliest_rec rec.tea.id ≡ some prev
    → before rec.expiration_date prev.expiration_date ≡ false
    → IsGathered (seen ++ rec ∷ []) g
unchanged-IsGathered seen g rec prev s known late = record {
  stand = s.stand;
  earliest = λ id r h.
      let old = s.earliest id r h in
      record {
        of_tea = old.of_tea;
        among = In-append_old r seen (rec ∷ []) old.among;
        candidate = old.candidate;
        index = old.index;
        placed = old.placed;
        found = old.found;
        same_id = old.same_id;
      };
  none_earlier = λ r h. elim (In-append_cases r rec seen h) [
    | inl old ↦ s.none_earlier r old
    | inr same ↦ (
      prev,
      ap (λ (x : QrRecord). g.earliest_rec x.tea.id) same ∙ known,
      ap (λ (x : QrRecord). before x.expiration_date prev.expiration_date) same ∙ late,
    )
  ];
}

gather_record-IsGathered :
    (normal : Bytes → Bytes) (seen : List QrRecord) (g : Gathered) (rec : QrRecord)
    → IsGathered seen g
    → IsGathered (seen ++ rec ∷ []) (gather_record normal rec g)
unfolding gather_record
gather_record-IsGathered normal seen g rec s = elim (Option-cases (g.earliest_rec rec.tea.id)) [
  | inl new ↦ rw new (add_tea-IsGathered normal seen g rec s new)
  | inr (prev, known) ↦ elim (Bool-cases (before rec.expiration_date prev.expiration_date)) [
    | inl earlier ↦
        rw (known, earlier, earlier_record-after seen g rec prev s known earlier)
          (after-IsGathered seen g rec prev s known earlier)
    | inr late ↦ rw (known, late) (unchanged-IsGathered seen g rec prev s known late)
  ]
]

pub gather_records-IsGathered :
    (normal : Bytes → Bytes) (recs seen : List QrRecord) (g : Gathered)
    → IsGathered seen g
    → IsGathered (seen ++ recs) (gather_records normal recs g)
unfolding gather_records
gather_records-IsGathered normal [] seen g s = rw (append-nil seen) s
gather_records-IsGathered normal (rec ∷ recs) seen g s =
    subst (λ xs. IsGathered xs (gather_records normal (rec ∷ recs) g))
      (append_assoc seen (rec ∷ []) recs)
      (gather_records-IsGathered normal recs (seen ++ rec ∷ []) (gather_record normal rec g)
        (gather_record-IsGathered normal seen g rec s))
