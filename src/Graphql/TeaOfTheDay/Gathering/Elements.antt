-- ===== src/Graphql/TeaOfTheDay/Gathering/Elements.antt =====
-- Lookups in the list of candidates after a change of it.
use tea_elephant_memory.Prelude.{
  ℕ, zero, suc, ◌≡◌, ◌≢◌, refl, ap, sym, ◌⊎◌, inl, inr, Bool, true, false, Option, none, some, List,
  [], ◌∷◌, ◌++◌, length, get_elem?, if◌then◌else◌, In, arith,
}
use tea_elephant_memory.Clock.{Time, before}
use tea_elephant_memory.Scoring.{Candidate}
use tea_elephant_memory.Graphql.TeaOfTheDay.{set_expiration}

abbrev value_or : {A : Type 0} → A → Option A → A
value_or d none = d
value_or d (some a) = a

pub some_injective : {A : Type 0} (a b : A) → some a ≡ some b → a ≡ b
some_injective a b h = ap (value_or a) h

pub not_none : {A : Type 0} (a : A) (o : Option A) → o ≡ some a → o ≡ none → ⊥
not_none a none h k = ground arith
not_none a (some b) h k = ground arith

-- A lookup after an assignment.
pub if_some :
    {A : Type 0} (b : Bool) (v w : A) (o : Option A)
    → (if b then some v else o) ≡ some w
    → ((b ≡ true) × (v ≡ w)) ⊎ ((b ≡ false) × (o ≡ some w))
if_some true v w o h = inl (refl, some_injective v w h)
if_some false v w o h = inr (refl, h)

pub later :
    (r rec prev : Time) → before rec prev ≡ true → before r prev ≡ false → before r rec ≡ false
later r rec prev h k = ground arith

pub before_self : (t : Time) → before t t ≡ false
before_self t = ground arith

module _ {A : Type 0} where
  pub In-append_old : (a : A) (xs ys : List A) → In a xs → In a (xs ++ ys)
  In-append_old a [] ys h = elim h [ ]
  In-append_old a (x ∷ xs) ys (inl e) = inl e
  In-append_old a (x ∷ xs) ys (inr h) = inr (In-append_old a xs ys h)

  pub In-append_last : (a : A) (xs : List A) → In a (xs ++ a ∷ [])
  In-append_last a [] = inl refl
  In-append_last a (x ∷ xs) = inr (In-append_last a xs)

  pub In-append_cases : (a b : A) (xs : List A) → In a (xs ++ b ∷ []) → In a xs ⊎ (a ≡ b)
  In-append_cases a b [] (inl e) = inr e
  In-append_cases a b [] (inr h) = elim h [ ]
  In-append_cases a b (x ∷ xs) (inl e) = inl (inl e)
  In-append_cases a b (x ∷ xs) (inr h) = elim (In-append_cases a b xs h) [
    | inl there ↦ inl (inr there)
    | inr e ↦ inr e
  ]

  pub get_elem?-append_cases :
      (xs : List A) (b : A) (i : ℕ) (a : A)
      → get_elem? (xs ++ b ∷ []) i ≡ some a
      → (get_elem? xs i ≡ some a) ⊎ ((i ≡ length xs) × (a ≡ b))
  get_elem?-append_cases [] b zero a h = inr (refl, sym (some_injective b a h))
  get_elem?-append_cases [] b (suc i) a h = absurd (ground arith)
  get_elem?-append_cases (x ∷ xs) b zero a h = inl h
  get_elem?-append_cases (x ∷ xs) b (suc i) a h = elim (get_elem?-append_cases xs b i a h) [
    | inl old ↦ inl old
    | inr (e, same) ↦ inr (ap suc e, same)
  ]

  pub get_elem?-append_old :
      (xs ys : List A) (i : ℕ) (a : A) → get_elem? xs i ≡ some a → get_elem? (xs ++ ys) i ≡ some a
  get_elem?-append_old [] ys i a h = absurd (ground arith)
  get_elem?-append_old (x ∷ xs) ys zero a h = h
  get_elem?-append_old (x ∷ xs) ys (suc i) a h = get_elem?-append_old xs ys i a h

-- The list of candidates with one expiration changed.
pub set_expiration_lem :
    (cs : List Candidate) (i j : ℕ) (t : Time) (c : Candidate)
    → get_elem? (set_expiration cs i t) j ≡ some c
    → ((i ≡ j)
        × (old : Candidate) × (get_elem? cs j ≡ some old)
        × (c ≡ record old { expiration = t }))
      ⊎ ((i ≢ j) × (get_elem? cs j ≡ some c))
unfolding set_expiration
set_expiration_lem [] i j t c h = absurd (ground arith)
set_expiration_lem (d ∷ cs) zero zero t c h = inl (refl, d, refl, sym (some_injective _ c h))
set_expiration_lem (d ∷ cs) zero (suc j) t c h = inr (ground arith, h)
set_expiration_lem (d ∷ cs) (suc i) zero t c h = inr (ground arith, h)
set_expiration_lem (d ∷ cs) (suc i) (suc j) t c h = elim (set_expiration_lem cs i j t c h) [
  | inl (e, old, found, same) ↦ inl (ap suc e, old, found, same)
  | inr (ne, found) ↦ inr (ground arith, found)
]

pub set_expiration_there :
    (cs : List Candidate) (i : ℕ) (t : Time) (old : Candidate)
    → get_elem? cs i ≡ some old
    → get_elem? (set_expiration cs i t) i ≡ some (record old { expiration = t })
unfolding set_expiration
set_expiration_there [] i t old h = absurd (ground arith)
set_expiration_there (d ∷ cs) zero t old h =
    ap (λ (c : Candidate). some (record c { expiration = t })) (some_injective d old h)
set_expiration_there (d ∷ cs) (suc i) t old h = set_expiration_there cs i t old h

pub set_expiration_other :
    (cs : List Candidate) (i j : ℕ) (t : Time)
    → i ≢ j
    → get_elem? (set_expiration cs i t) j ≡ get_elem? cs j
unfolding set_expiration
set_expiration_other [] i j t ne = refl
set_expiration_other (d ∷ cs) zero zero t ne = absurd (ne refl)
set_expiration_other (d ∷ cs) zero (suc j) t ne = refl
set_expiration_other (d ∷ cs) (suc i) zero t ne = refl
set_expiration_other (d ∷ cs) (suc i) (suc j) t ne =
    set_expiration_other cs i j t (λ e. ne (ap suc e))
