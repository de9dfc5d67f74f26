-- ===== src/Store/Rows.antt =====
-- Lemmas on the row operations that the statements are made of.
use tea_elephant_memory.Prelude.{
  ◌≡◌, refl, ap, sym, subst, inl, inr, Bool, true, false, not, ◌&&◌, ◌||◌, Bool-cases, none, some,
  List, [], ◌∷◌, ◌++◌, keep, All, arith, map, sort, place,
}
use tea_elephant_memory.Store.{Db, Query, statement, exists, find, update, with_faults}

-- With no failure ahead a statement is its query.
pub statement_healthy :
    {A : Type 0} (q : Query A) (db : Db) → db.faults ≡ [] → statement q db ≡ q db
unfolding statement
statement_healthy q db h = subst (λ fs. with_faults fs q db ≡ q db) (sym h) refl

module _ {ℓ} {A : Type ℓ} (p : A → Bool) where
  pub find-append_new :
      (xs : List A) (x : A) → exists p xs ≡ false → p x ≡ true → find p (xs ++ x ∷ []) ≡ some x
  unfolding find exists
  find-append_new [] x h e = rw e
  find-append_new (y ∷ xs) x h e = ground (arith, find-append_new xs x)

  pub find-append_none :
      (xs : List A) (x : A) → find p xs ≡ none → p x ≡ true → find p (xs ++ x ∷ []) ≡ some x
  unfolding find
  find-append_none [] x h e = rw e
  find-append_none (y ∷ xs) x h e = ground (arith, find-append_none xs x)

  pub find-append_old : (xs : List A) (x : A) → p x ≡ false → find p (xs ++ x ∷ []) ≡ find p xs
  unfolding find
  find-append_old [] x e = rw e
  find-append_old (y ∷ xs) x e = ground (arith, find-append_old xs x e)

  pub exists-find : (xs : List A) → exists p xs ≡ false → find p xs ≡ none
  unfolding find exists
  exists-find [] h = refl
  exists-find (x ∷ xs) h = ground (arith, exists-find xs)

  pub find-exists : (xs : List A) (x : A) → find p xs ≡ some x → (exists p xs ≡ true) × (p x ≡ true)
  unfolding find exists
  find-exists [] x h = absurd (ground arith)
  find-exists (y ∷ xs) x h = ground (arith, find-exists xs x)

  pub exists→find : (xs : List A) → exists p xs ≡ true → (x : A) × (find p xs ≡ some x)
  unfolding find exists
  exists→find [] h = absurd (ground arith)
  exists→find (x ∷ xs) h = elim (Bool-cases (p x)) [
    | inl e ↦ (x, rw e)
    | inr e ↦ let (y, found) = exists→find xs (ground arith) in (y, rw e found)
  ]

  -- An update that keeps the condition shows in what is found.
  pub find-update :
      (f : A → A) (xs : List A) (x : A)
      → ((y : A) → p y ≡ true → p (f y) ≡ true)
      → find p xs ≡ some x
      → find p (update p f xs) ≡ some (f x)
  unfolding find update
  find-update f [] x k h = absurd (ground arith)
  find-update f (y ∷ xs) x k h = ground (arith, k y, find-update f xs x k)

  pub exists-keep-not : (xs : List A) → exists p (keep (λ x. not (p x)) xs) ≡ false
  unfolding exists keep
  exists-keep-not [] = refl
  exists-keep-not (x ∷ xs) = ground (arith, exists-keep-not xs)

  -- Dropping rows outside the condition does not change what is found.
  pub find-keep :
      (q : A → Bool) (xs : List A)
      → ((x : A) → p x ≡ true → q x ≡ true)
      → find p (keep q xs) ≡ find p xs
  unfolding find keep
  find-keep q [] k = refl
  find-keep q (x ∷ xs) k = ground (arith, find-keep q xs k, k x)

  pub All-not_exists : (xs : List A) → exists p xs ≡ false → All (λ x. p x ≡ false) xs
  unfolding exists
  All-not_exists [] h = tt
  All-not_exists (x ∷ xs) h = ground (arith, All-not_exists xs)

module _ {ℓ} {A : Type ℓ} (p : A → Bool) (precedes : A → A → Bool) where
  exists-place : (a : A) (xs : List A) → exists p (place precedes a xs) ≡ p a || exists p xs
  unfolding exists place
  exists-place a [] = refl
  exists-place a (x ∷ xs) = ground (arith, exists-place a xs)

  pub exists-sort : (xs : List A) → exists p (sort precedes xs) ≡ exists p xs
  unfolding exists sort
  exists-sort [] = refl
  exists-sort (x ∷ xs) = rw (exists-place x (sort precedes xs), exists-sort xs)

module _ {ℓ} {A B : Type ℓ} (p : B → Bool) (f : A → B) where
  pub exists-map : (xs : List A) → exists p (map f xs) ≡ exists (λ x. p (f x)) xs
  unfolding exists
  exists-map [] = refl
  exists-map (x ∷ xs) = ap (◌||◌ (p (f x))) (exists-map xs)

module _ {ℓ} {A : Type ℓ} (p q r : A → Bool) where
  -- What is found counts among the rows that pass another test.
  pub find-exists_keep :
      (xs : List A) (x : A)
      → find p xs ≡ some x
      → q x ≡ true
      → r x ≡ true
      → exists r (keep q xs) ≡ true
  unfolding find exists keep
  find-exists_keep [] x found hq hr = absurd (ground arith)
  find-exists_keep (y ∷ xs) x found hq hr = ground (arith, find-exists_keep xs x)

module _ {ℓ} {A : Type ℓ} (p : A → Bool) where
  pub exists-append : (xs ys : List A) → exists p (xs ++ ys) ≡ exists p xs || exists p ys
  unfolding exists
  exists-append [] ys = refl
  exists-append (x ∷ xs) ys = ground (arith, exists-append xs ys)

  -- Dropping rows by a test on which all rows of the condition agree.
  pub exists-keep :
      (q : A → Bool) (b : Bool) (xs : List A)
      → ((x : A) → p x ≡ true → q x ≡ b)
      → exists p (keep q xs) ≡ (exists p xs && b)
  unfolding exists keep
  exists-keep q b [] k = refl
  exists-keep q b (x ∷ xs) k = ground (arith, exists-keep q b xs k, k x)

  pub exists-weaken :
      (q : A → Bool) (xs : List A)
      → ((x : A) → q x ≡ true → p x ≡ true)
      → exists q xs ≡ true
      → exists p xs ≡ true
  unfolding exists
  exists-weaken q [] k h = h
  exists-weaken q (x ∷ xs) k h = ground (arith, exists-weaken q xs k, k x)

  pub exists-one : (x : A) → exists p (x ∷ []) ≡ p x
  unfolding exists
  exists-one x = ground arith

  pub find-none_exists : (xs : List A) → find p xs ≡ none → exists p xs ≡ false
  unfolding find exists
  find-none_exists [] h = refl
  find-none_exists (x ∷ xs) h = ground (arith, find-none_exists xs)
