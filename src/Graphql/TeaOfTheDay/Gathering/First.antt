-- ===== src/Graphql/TeaOfTheDay/Gathering/First.antt =====
-- The step of the loop over the records at the first record of a tea.
use tea_elephant_memory.Prelude.{
  ℕ, ◌≡◌, refl, ap, sym, subst, ◌∙◌, inl, inr, Bool-cases, false, none, some, List, [], ◌∷◌, ◌++◌,
  length, get_elem?-append_middle, ◌==◌, ==_refl, Bytes, In, arith,
}
use tea_elephant_memory.Clock.{before}
use tea_elephant_memory.Scoring.{Candidate}
use tea_elephant_memory.Models.{QrRecord}
use tea_elephant_memory.Graphql.TeaOfTheDay.{Gathered, add_tea}
use tea_elephant_memory.Graphql.TeaOfTheDay.Gathering.{IsGathered}
use tea_elephant_memory.Graphql.TeaOfTheDay.Gathering.Elements.{
  not_none, if_some, before_self, In-append_old, In-append_last, In-append_cases,
  get_elem?-append_cases, get_elem?-append_old,
}

-- A first record of its tea.
module _ (normal : Bytes → Bytes) (seen : List QrRecord) (g : Gathered) (rec : QrRecord)
    (is_gathered : IsGathered seen g) (new : g.earliest_rec rec.tea.id ≡ none) where
  add_tea-other : (id : ℕ) (r : QrRecord) → g.earliest_rec id ≡ some r → (id == rec.tea.id) ≡ false
  add_tea-other id r h = elim (Bool-cases (id == rec.tea.id)) [
    | inr e ↦ e
    | inl e ↦
        let same : id ≡ rec.tea.id = ground arith in
        absurd (not_none r (g.earliest_rec id) h (ap g.earliest_rec same ∙ new))
  ]

  pub add_tea-IsGathered : IsGathered (seen ++ rec ∷ []) (add_tea normal rec g)
  add_tea-IsGathered = record {
    stand = λ i c h. elim (get_elem?-append_cases g.candidates _ i c h) [
      | inl old ↦
          let s = is_gathered.stand i c old in
          let other = add_tea-other c.id s.rec s.earliest in
          record {
            rec = s.rec;
            earliest = rw other s.earliest;
            expires = s.expires;
            place = rw other s.place;
          }
      | inr (e, same) ↦
          let id : c.id ≡ rec.tea.id = ap (λ (c : Candidate). c.id) same in
          record {
            rec = rec;
            earliest = rw (id, ==_refl rec.tea.id) refl;
            expires = ap (λ (c : Candidate). c.expiration) same;
            place = rw (id, ==_refl rec.tea.id, e) refl;
          }
    ];
    earliest = λ id r h. elim (if_some (id == rec.tea.id) rec r (g.earliest_rec id) h) [
      | inl (e, this) ↦
          let same : id ≡ rec.tea.id = ground arith in
          record {
            of_tea = ap (λ (x : QrRecord). x.tea.id) (sym this) ∙ sym same;
            among = subst (λ x. In x (seen ++ rec ∷ [])) this (In-append_last rec seen);
            candidate = record {
              id = rec.tea.id;
              name = rec.tea.name;
              expiration = rec.expiration_date;
            };
            index = length g.candidates;
            placed = rw e refl;
            found = get_elem?-append_middle g.candidates [] _;
            same_id = sym same;
          }
      | inr (e, there) ↦
          let old = is_gathered.earliest id r there in
          record {
            of_tea = old.of_tea;
            among = In-append_old r seen (rec ∷ []) old.among;
            candidate = old.candidate;
            index = old.index;
            placed = rw e old.placed;
            found = get_elem?-append_old g.candidates _ old.index old.candidate old.found;
            same_id = old.same_id;
          }
    ];
    none_earlier = λ r h. elim (In-append_cases r rec seen h) [
      | inl old ↦
          let (first, found, late) = is_gathered.none_earlier r old in
          (first, rw (add_tea-other r.tea.id first found) found, late)
      | inr same ↦ (
        rec,
        rw (ap (λ (x : QrRecord). x.tea.id) same, ==_refl rec.tea.id) refl,
        ap (λ (x : QrRecord). before x.expiration_date rec.expiration_date) same
            ∙ before_self rec.expiration_date,
      )
    ];
  }
