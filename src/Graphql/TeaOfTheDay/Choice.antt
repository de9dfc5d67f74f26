-- ===== src/Graphql/TeaOfTheDay/Choice.antt =====
-- Which tea of the day a user gets.
use tea_elephant_memory.Prelude.{
  ℕ, zero, suc, ◌≡◌, ◌≢◌, refl, ap, sym, subst, ◌∙◌, inl, inr, true, false, none, some, List, [],
  ◌∷◌, get_elem?, ℤ, ◌≤ℤ◌, In, All, Map, arith, eq_of_parts,
}
use tea_elephant_memory.Clock.{Time, before}
use tea_elephant_memory.Scoring.{Candidate, total_score, select_best}
use tea_elephant_memory.Scoring.Selection.{select_best_optimal}
use tea_elephant_memory.Models.{QrRecord}
use tea_elephant_memory.Graphql.TeaOfTheDay.{Gathered, is_empty}
use tea_elephant_memory.Graphql.TeaOfTheDay.Gathering.{IsGathered}

true_not_false : true ≡ false → ⊥
true_not_false h = ground arith

value_of : {A : Type 0} (a b : A) → some a ≡ some b → a ≡ b
value_of a b h = ap (λ o. elim o [ none ↦ a | some x ↦ x ]) h

In-get_elem? : {A : Type 0} (a : A) (xs : List A) → In a xs → (i : ℕ) × (get_elem? xs i ≡ some a)
In-get_elem? a [] h = elim h [ ]
In-get_elem? a (x ∷ xs) (inl e) = (zero, ap some (sym e))
In-get_elem? a (x ∷ xs) (inr h) = let (i, found) = In-get_elem? a xs h in (suc i, found)

All-get_elem? :
    {A : Type 0} (P : A → Type 0) (xs : List A)
    → ((i : ℕ) (a : A) → get_elem? xs i ≡ some a → P a)
    → All P xs
All-get_elem? P [] k = tt
All-get_elem? P (x ∷ xs) k = (k zero x refl, All-get_elem? P xs (λ i a. k (suc i) a))

get_elem?-All :
    {A : Type 0} (P : A → Type 0) (xs : List A) (i : ℕ) (a : A)
    → All P xs
    → get_elem? xs i ≡ some a
    → P a
get_elem?-All P [] i a h found = absurd (ground arith)
get_elem?-All P (x ∷ xs) zero a h found = subst P (value_of x a found) h.0
get_elem?-All P (x ∷ xs) (suc i) a h found = get_elem?-All P xs i a h.1 found

pub In-All : {A : Type 0} (P : A → Type 0) (xs : List A) (a : A) → All P xs → In a xs → P a
In-All P [] a h m = elim m [ ]
In-All P (x ∷ xs) a h (inl e) = subst P (sym e) h.0
In-All P (x ∷ xs) a h (inr m) = In-All P xs a h.1 m

not_earlier_both : (t u : Time) → before t u ≡ false → before u t ≡ false → t ≡ u
not_earlier_both t u h k = eq_of_parts t u (ground arith)

module _ (scores : Map ℤ) (last : Map Time) (now : Time) where
  -- The total score of a record's tea, with the record's expiration.
  abbrev pub score_of : QrRecord → ℤ
  score_of r =
      total_score scores last now
        (record { id = r.tea.id; name = r.tea.name; expiration = r.expiration_date })

  total_score_same :
      (c : Candidate) (r : QrRecord)
      → c.id ≡ r.tea.id
      → c.expiration ≡ r.expiration_date
      → total_score scores last now c ≡ score_of r
  unfolding total_score
  total_score_same c r id expires = rw (id, expires) refl

-- No record of the list is of the same tea and expires earlier.
abbrev pub IsEarliest : List QrRecord → QrRecord → Type 0
IsEarliest recs r =
    All (λ (q : QrRecord). q.tea.id ≡ r.tea.id → before q.expiration_date r.expiration_date ≡ false)
      recs

All-In : {A : Type 0} (P : A → Type 0) (xs : List A) → ((a : A) → In a xs → P a) → All P xs
All-In P [] k = tt
All-In P (x ∷ xs) k = (k x (inl refl), All-In P xs (λ a m. k a (inr m)))

found_nonempty :
    (cs : List Candidate) (i : ℕ) (c : Candidate) → get_elem? cs i ≡ some c → is_empty cs ≡ false
found_nonempty [] i c h = absurd (ground arith)
found_nonempty (d ∷ cs) i c h = refl

module _ (recs : List QrRecord) (g : Gathered) (is_gathered : IsGathered recs g) where
  record_first : (id : ℕ) (rec : QrRecord) → g.earliest_rec id ≡ some rec → IsEarliest recs rec
  record_first id rec h = All-In _ recs (λ q m same.
      let (first, found, late) = is_gathered.none_earlier q m in
      let of_tea = (is_gathered.earliest id rec h).of_tea in
      let this : first ≡ rec =
        value_of first rec (sym found ∙ ap g.earliest_rec (same ∙ of_tea) ∙ h) in
      subst (λ (x : QrRecord). before q.expiration_date x.expiration_date ≡ false) this late)

  pub candidates_nonempty : (r : QrRecord) → In r recs → is_empty g.candidates ≡ false
  candidates_nonempty r m =
      let (first, found, _) = is_gathered.none_earlier r m in
      let at = is_gathered.earliest r.tea.id first found in
      found_nonempty g.candidates at.index at.candidate at.found

  -- The candidate of a record that no other one of its tea precedes has the record's score.
  candidate_of :
      (scores : Map ℤ) (last : Map Time) (now : Time) (r : QrRecord)
      → In r recs
      → IsEarliest recs r
      → (c : Candidate) × (i : ℕ) × (get_elem? g.candidates i ≡ some c)
        × (total_score scores last now c ≡ score_of scores last now r)
  candidate_of scores last now r m early =
      let (first, found, late) = is_gathered.none_earlier r m in
      let at = is_gathered.earliest r.tea.id first found in
      let s = is_gathered.stand at.index at.candidate at.found in
      let this : s.rec ≡ first =
        value_of s.rec first (sym s.earliest ∙ ap g.earliest_rec at.same_id ∙ found) in
      let late' = In-All _ recs first early at.among at.of_tea in
      let same : first.expiration_date ≡ r.expiration_date =
        not_earlier_both first.expiration_date r.expiration_date late' late in
      (
        at.candidate,
        at.index,
        at.found,
        total_score_same scores last now at.candidate r at.same_id
            (s.expires ∙ ap (λ (x : QrRecord). x.expiration_date) this ∙ same),
      )

  candidate_ids :
      All (λ (r : QrRecord). r.tea.id ≢ 0) recs → All (λ (c : Candidate). c.id ≢ 0) g.candidates
  candidate_ids named = All-get_elem? _ g.candidates (λ i c found.
      let s = is_gathered.stand i c found in
      let at = is_gathered.earliest c.id s.rec s.earliest in
      λ zero_id.
        In-All (λ (r : QrRecord). r.tea.id ≢ 0) recs s.rec named at.among (at.of_tea ∙ zero_id))

  -- The choice is the tea of a record, the earliest of its tea, and no such record has a higher score.
  pub choice_lem :
      (scores : Map ℤ) (last : Map Time) (now : Time) (r : QrRecord)
      → In r recs
      → All (λ (r : QrRecord). r.tea.id ≢ 0) recs
      → (rec : QrRecord) × ((select_best scores g.candidates last now).0 ≡ rec.tea.id)
        × (g.earliest_rec rec.tea.id ≡ some rec)
        × In rec recs
        × IsEarliest recs rec
        × ((q : QrRecord)
            → In q recs
            → IsEarliest recs q
            → score_of scores last now q ≤ℤ score_of scores last now rec)
  choice_lem scores last now r m named =
      chosen g.candidates refl (candidates_nonempty r m) (candidate_ids named)
    where
      chosen :
          (cs : List Candidate) (same : g.candidates ≡ cs)
          → is_empty g.candidates ≡ false
          → All (λ (c : Candidate). c.id ≢ 0) g.candidates
          → (rec : QrRecord) × ((select_best scores g.candidates last now).0 ≡ rec.tea.id)
            × (g.earliest_rec rec.tea.id ≡ some rec)
            × In rec recs
            × IsEarliest recs rec
            × ((q : QrRecord)
                → In q recs
                → IsEarliest recs q
                → score_of scores last now q ≤ℤ score_of scores last now rec)
      chosen [] same nonempty ids = absurd (true_not_false (sym (ap is_empty same) ∙ nonempty))
      chosen (c ∷ cs) same nonempty ids =
          let (w, among, best, highest) =
            select_best_optimal scores last now c cs
              (subst (All (λ (c : Candidate). c.id ≢ 0)) same ids) in
          let (i, found) = In-get_elem? w (c ∷ cs) among in
          let s = is_gathered.stand i w (ap (λ xs. get_elem? xs i) same ∙ found) in
          let at = is_gathered.earliest w.id s.rec s.earliest in
          let own = total_score_same scores last now w s.rec (sym at.of_tea) s.expires in
          (
            s.rec,
            ap (λ xs. (select_best scores xs last now).0) same
                ∙ ap (λ (p : ℕ × ℤ). p.0) best
                ∙ sym at.of_tea,
            ap g.earliest_rec at.of_tea ∙ s.earliest,
            at.among,
            record_first w.id s.rec s.earliest,
            λ q m' early.
                let (d, j, there, score) = candidate_of scores last now q m' early in
                let below =
                  get_elem?-All _ (c ∷ cs) j d highest
                    (sym (ap (λ xs. get_elem? xs j) same) ∙ there) in
                rw (← score, ← own) below,
          )
