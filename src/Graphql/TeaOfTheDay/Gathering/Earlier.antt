-- ===== src/Graphql/TeaOfTheDay/Gathering/Earlier.antt =====
-- The step of the loop over the records at an earlier record of a tea that was seen.
use tea_elephant_memory.Prelude.{
  ℕ, ◌≡◌, ◌≢◌, refl, ap, sym, subst, ◌∙◌, inl, inr, Bool-cases, true, false, some, List, [], ◌∷◌,
  ◌++◌, get_elem?, ◌==◌, ==_refl, In, insert, arith,
}
use tea_elephant_memory.Clock.{before}
use tea_elephant_memory.Scoring.{Candidate}
use tea_elephant_memory.Models.{QrRecord}
use tea_elephant_memory.Graphql.TeaOfTheDay.{Gathered, set_expiration, earlier_record}
use tea_elephant_memory.Graphql.TeaOfTheDay.Gathering.{Earliest, IsGathered}
use tea_elephant_memory.Graphql.TeaOfTheDay.Gathering.Elements.{
  some_injective, if_some, later, before_self, In-append_old, In-append_last, In-append_cases,
  set_expiration_lem, set_expiration_there, set_expiration_other,
}

-- A record of a tea that was seen, with an earlier expiration.
module _ (seen : List QrRecord) (g : Gathered) (rec prev : QrRecord)
    (is_gathered : IsGathered seen g) (known : g.earliest_rec rec.tea.id ≡ some prev)
    (earlier : before rec.expiration_date prev.expiration_date ≡ true) where
  abbrev place : Earliest g seen rec.tea.id prev
  place = is_gathered.earliest rec.tea.id prev known

  -- Another candidate is of another tea.
  apart :
      (j : ℕ) (c : Candidate)
      → place.index ≢ j
      → g.id_to_idx c.id ≡ some j
      → (c.id == rec.tea.id) ≡ false
  apart j c ne at = elim (Bool-cases (c.id == rec.tea.id)) [
    | inr e ↦ e
    | inl e ↦
        let same : c.id ≡ rec.tea.id = ground arith in
        absurd
          (ne (some_injective place.index j (sym place.placed ∙ ap g.id_to_idx (sym same) ∙ at)))
  ]

  pub after : Gathered
  after = record g {
    earliest_rec = insert rec.tea.id rec g.earliest_rec;
    candidates = set_expiration g.candidates place.index rec.expiration_date;
  }

  pub earlier_record-after : earlier_record rec g ≡ after
  unfolding after
  earlier_record-after = rw place.placed refl

  pub after-IsGathered : IsGathered (seen ++ rec ∷ []) after
  unfolding after
  after-IsGathered = record {
    stand = λ j c h. elim (set_expiration_lem g.candidates place.index j rec.expiration_date c h) [
      | inl (e, old, found, same) ↦
          let this : place.candidate ≡ old =
            some_injective _ _ (sym place.found ∙ ap (get_elem? g.candidates) e ∙ found) in
          let id : c.id ≡ rec.tea.id =
            ap (λ (c : Candidate). c.id) same
            ∙ ap (λ (c : Candidate). c.id) (sym this)
            ∙ place.same_id in
          record {
            rec = rec;
            earliest = rw (id, ==_refl rec.tea.id) refl;
            expires = ap (λ (c : Candidate). c.expiration) same;
            place = ap g.id_to_idx id ∙ place.placed ∙ ap some e;
          }
      | inr (ne, found) ↦
          let s = is_gathered.stand j c found in
          let other = apart j c ne s.place in
          record {
            rec = s.rec;
            earliest = rw other s.earliest;
            expires = s.expires;
            place = s.place;
          }
    ];
    earliest = λ id r h. elim (if_some (id == rec.tea.id) rec r (g.earliest_rec id) h) [
      | inl (e, this) ↦
          let same : id ≡ rec.tea.id = ground arith in
          record {
            of_tea = ap (λ (x : QrRecord). x.tea.id) (sym this) ∙ sym same;
            among = subst (λ x. In x (seen ++ rec ∷ [])) this (In-append_last rec seen);
            candidate = record place.candidate { expiration = rec.expiration_date };
            index = place.index;
            placed = ap g.id_to_idx same ∙ place.placed;
            found =
                set_expiration_there g.candidates place.index rec.expiration_date place.candidate
                  place.found;
            same_id = place.same_id ∙ sym same;
          }
      | inr (e, there) ↦
          let old = is_gathered.earliest id r there in
          let ne : place.index ≢ old.index = λ at.
            let this : place.candidate ≡ old.candidate =
              some_injective _ _ (sym place.found ∙ ap (get_elem? g.candidates) at ∙ old.found) in
            let same : id ≡ rec.tea.id =
              sym old.same_id ∙ ap (λ (c : Candidate). c.id) (sym this) ∙ place.same_id in
            ground (arith, same) in
          record {
            of_tea = old.of_tea;
            among = In-append_old r seen (rec ∷ []) old.among;
            candidate = old.candidate;
            index = old.index;
            placed = old.placed;
            found =
                set_expiration_other g.candidates place.index old.index rec.expiration_date ne
                ∙ old.found;
            same_id = old.same_id;
          }
    ];
    none_earlier = λ r h. elim (In-append_cases r rec seen h) [
      | inl old ↦
          let (first, found, late) = is_gathered.none_earlier r old in
          elim (Bool-cases (r.tea.id == rec.tea.id)) [
            | inl e ↦
                let same : r.tea.id ≡ rec.tea.id = ground arith in
                let this : first ≡ prev =
                  some_injective _ _ (sym found ∙ ap g.earliest_rec same ∙ known) in
                (
                  rec,
                  rw e refl,
                  later r.expiration_date rec.expiration_date prev.expiration_date earlier (
                      ap (λ (x : QrRecord). before r.expiration_date x.expiration_date) (sym this)
                      ∙ late),
                )
            | inr e ↦ (first, rw e found, late)
          ]
      | inr same ↦ (
        rec,
        rw (ap (λ (x : QrRecord). x.tea.id) same, ==_refl rec.tea.id) refl,
        ap (λ (x : QrRecord). before x.expiration_date rec.expiration_date) same
            ∙ before_self rec.expiration_date,
      )
    ];
  }
