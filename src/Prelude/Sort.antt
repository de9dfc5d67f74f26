-- ===== src/Prelude/Sort.antt =====
-- A stable sort by a Boolean order, for ORDER BY clauses and sort.Slice.
use mathlib.Core.Bool.{Bool, true, false}
use mathlib.Core.List.Perm
use mathlib.Core.List.{List, [], ◌∷◌, Perm}
use mathlib.Core.Logic.{inl, inr}
use mathlib.Core.Path.{◌≡◌}
use native.Mathlib.Omega.{arith}
use tea_elephant_memory.Prelude.Tests.{if◌then◌else◌, Bool-cases}
use tea_elephant_memory.Prelude.Lists.{All, All-weaken}

module _ {ℓ} {A : Type ℓ} (precedes : A → A → Bool) where
  -- Before the first element that it strictly precedes.
  unfoldable pub place : A → List A → List A
  place a [] = a ∷ []
  place a (x ∷ xs) = let rest = place a xs in if precedes a x then a ∷ x ∷ xs else x ∷ rest

  unfoldable pub sort : List A → List A
  unfolding place
  sort [] = []
  sort (x ∷ xs) = place x (sort xs)

  place-perm : (a : A) (xs : List A) → Perm (place a xs) (a ∷ xs)
  unfolding place
  place-perm a [] = Perm.refl _
  place-perm a (x ∷ xs) = elim (Bool-cases (precedes a x)) [
    | inl e ↦ rw e (Perm.refl _)
    | inr e ↦ rw e (Perm.trans (Perm.cons x (place-perm a xs)) (Perm.swap a x xs))
  ]

  pub sort-perm : (xs : List A) → Perm (sort xs) xs
  unfolding sort
  sort-perm [] = Perm.refl _
  sort-perm (x ∷ xs) = Perm.trans (place-perm x (sort xs)) (Perm.cons x (sort-perm xs))

  -- No later element strictly precedes an earlier one.
  abbrev pub IsSorted : List A → Type ℓ
  IsSorted [] = Unit
  IsSorted (x ∷ xs) = All (λ y. precedes y x ≡ false) xs × IsSorted xs

  -- A strict order sorts. Of two elements at most one strictly precedes the other, and what does not
  -- precede is passed on.
  module _ (asym : (a b : A) → precedes a b ≡ true → precedes b a ≡ false)
      (trans : (a b c : A)
        → precedes b a ≡ false
        → precedes c b ≡ false
        → precedes c a ≡ false) where
    place-All : (P : A → Type 0) (a : A) (xs : List A) → P a → All P xs → All P (place a xs)
    unfolding place
    place-All P a [] pa h = (pa, tt)
    place-All P a (x ∷ xs) pa h = ground (arith, place-All P a xs pa h.1)

    place-IsSorted : (a : A) (xs : List A) → IsSorted xs → IsSorted (place a xs)
    unfolding place
    place-IsSorted a [] h = (tt, tt)
    place-IsSorted a (x ∷ xs) h = elim (Bool-cases (precedes a x)) [
      | inl e ↦ rw e ((asym a x e, All-weaken _ (λ y p. trans a x y (asym a x e) p) xs h.0), h)
      | inr e ↦ rw e (place-All _ a xs e h.0, place-IsSorted a xs h.1)
    ]

    pub sort-IsSorted : (xs : List A) → IsSorted (sort xs)
    unfolding sort
    sort-IsSorted [] = tt
    sort-IsSorted (x ∷ xs) = place-IsSorted x (sort xs) (sort-IsSorted xs)
