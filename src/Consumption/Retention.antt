-- ===== src/Consumption/Retention.antt =====
-- What a history of records leaves in the stores: MemoryStore against a description of its contents,
-- and PGStore beside it.
use tea_elephant_memory.Prelude.{
  ℕ, ◌≡◌, refl, sym, ◌∙◌, Bool, true, false, not, ◌&&◌, Bool-cases, inl, inr, List, [], ◌∷◌, ◌++◌,
  keep, keep-append, keep-keep, keep-always, sort-perm, sort-IsSorted, IsSorted, Perm, ℤ, pos, ◌-ℤ◌,
  int_laws, subst, ltb_ℤ, if◌then◌else◌, get_or, ◌==◌, ==_refl, arith, append_assoc, append-nil,
}
use tea_elephant_memory.Clock.{Time, before, after}
use tea_elephant_memory.Consumption.{
  Consumption, MemoryStore, new_memory_store, effective_retention, record_consumption, recent,
  newest_first,
}

-- A call of Record.
pub record Drink : Type 0 where
  pub user_id : ℕ
  pub tea_id : ℕ
  pub time : Time

-- The calls, the earliest first.
unfoldable pub record_all : List Drink → MemoryStore → MemoryStore
unfolding record_consumption
record_all [] m = m
record_all (d ∷ ds) m = record_all ds (record_consumption d.user_id d.tea_id d.time m)

module _ (user_id : ℕ) (retention : ℤ) where
  -- No call of the user comes a retention period or more after the time.
  abbrev pub survives : List Drink → Time → Bool
  survives [] t = true
  survives (d ∷ ds) t =
      (if d.user_id == user_id then after t (d.time -ℤ retention) else true) && survives ds t

  -- The events of the user that every later call left.
  abbrev pub surviving : List Drink → List Consumption
  surviving [] = []
  surviving (d ∷ ds) =
      if d.user_id == user_id && survives ds d.time
      then record { tea_id = d.tea_id; time = d.time } ∷ surviving ds
      else surviving ds

contents : ℕ → MemoryStore → List Consumption
contents user_id m = get_or (m.events user_id) []

after_own : (t r : ℤ) → ltb_ℤ (pos 0) r ≡ true → after t (t -ℤ r) ≡ true
after_own t r positive = grind int_laws

keep-one : {A : Type 0} (p : A → Bool) (x : A) → keep p (x ∷ []) ≡ (if p x then x ∷ [] else [])
unfolding keep
keep-one p x = refl

record_own :
    (user_id tea_id : ℕ) (ts : Time) (m : MemoryStore)
    → ltb_ℤ (pos 0) m.retention ≡ true
    → contents user_id (record_consumption user_id tea_id ts m)
      ≡ keep (λ c. after c.time (ts -ℤ m.retention)) (contents user_id m)
        ++ record { tea_id = tea_id; time = ts } ∷ []
unfolding contents record_consumption
record_own user_id tea_id ts m positive =
    let event : Consumption = record { tea_id = tea_id; time = ts } in
    let in_retention = λ (c : Consumption). after c.time (ts -ℤ m.retention) in
    let kept : keep in_retention (event ∷ []) ≡ event ∷ [] =
      rw (keep-one in_retention event, after_own ts m.retention positive) in
    rw (==_refl user_id, keep-append in_retention (get_or (m.events user_id) []) (event ∷ []), kept)

-- A call of Record for the user: the old events in retention, then the new one.
record_mine :
    (user_id owner tea_id : ℕ) (ts : Time) (m : MemoryStore)
    → ltb_ℤ (pos 0) m.retention ≡ true
    → (owner == user_id) ≡ true
    → contents user_id (record_consumption owner tea_id ts m)
      ≡ keep (λ c. after c.time (ts -ℤ m.retention)) (contents user_id m)
        ++ record { tea_id = tea_id; time = ts } ∷ []
record_mine user_id owner tea_id ts m positive mine =
    let same : user_id ≡ owner = ground arith in
    subst
      (λ o.
        contents user_id (record_consumption o tea_id ts m)
        ≡ keep (λ c. after c.time (ts -ℤ m.retention)) (contents user_id m)
          ++ record { tea_id = tea_id; time = ts } ∷ [])
      same (record_own user_id tea_id ts m positive)

record_other :
    (user_id other tea_id : ℕ) (ts : Time) (m : MemoryStore)
    → (other == user_id) ≡ false
    → contents user_id (record_consumption other tea_id ts m) ≡ contents user_id m
unfolding contents record_consumption
record_other user_id other tea_id ts m ne = ground (arith, ne)

append-if :
    {A : Type 0} (b : Bool) (x : A) (ys xs : List A)
    → (ys ++ (if b then x ∷ [] else [])) ++ xs ≡ ys ++ (if b then x ∷ xs else xs)
append-if true x ys xs = append_assoc ys (x ∷ []) xs
append-if false x ys xs = append_assoc ys [] xs

record_all-contents :
    (user_id : ℕ) (ds : List Drink) (m : MemoryStore)
    → ltb_ℤ (pos 0) m.retention ≡ true
    → contents user_id (record_all ds m)
      ≡ keep (λ c. survives user_id m.retention ds c.time) (contents user_id m)
        ++ surviving user_id m.retention ds
unfolding record_all contents record_consumption
record_all-contents user_id [] m positive = sym (append-nil _ ∙ keep-always _)
record_all-contents user_id (d ∷ ds) m positive = elim (Bool-cases (d.user_id == user_id)) [
  | inl mine ↦
      let later = survives user_id m.retention ds in
      let event : Consumption = record { tea_id = d.tea_id; time = d.time } in
      rw
        (
          record_all-contents user_id ds (record_consumption d.user_id d.tea_id d.time m) positive,
          record_mine user_id d.user_id d.tea_id d.time m positive mine,
          keep-append (λ c. later c.time)
              (keep (λ c. after c.time (d.time -ℤ m.retention)) (contents user_id m)) (event ∷ []),
          keep-keep (λ (c : Consumption). later c.time) (λ c. after c.time (d.time -ℤ m.retention))
              (λ c. survives user_id m.retention (d ∷ ds) c.time) (λ c. rw mine)
              (contents user_id m),
          keep-one (λ (c : Consumption). later c.time) event,
          mine,
        )
        (append-if (later d.time) event
          (keep
            (λ c.
              (if true then after c.time (d.time -ℤ m.retention) else true)
              && survives user_id m.retention ds c.time)
            (contents user_id m))
          (surviving user_id m.retention ds))
  | inr other ↦ ground (
    arith,
    record_other user_id d.user_id d.tea_id d.time m other,
    record_all-contents user_id ds (record_consumption d.user_id d.tea_id d.time m) positive,
  )
]

-- After any history of calls on a new store, a query answers, newest first, exactly the events of the user
-- that are not before the given time and that no later call of the user put out of retention.
pub recent-record_all :
    (retention : ℤ) (ds : List Drink) (user_id : ℕ) (since : Time)
    → Perm (recent user_id since (record_all ds (new_memory_store retention))) (
        keep
          (λ c. not (before c.time since))
          (surviving user_id (effective_retention retention) ds))
      × IsSorted newest_first (recent user_id since (record_all ds (new_memory_store retention)))
unfolding recent contents new_memory_store keep
recent-record_all retention ds user_id since =
    let positive : ltb_ℤ (pos 0) (effective_retention retention) ≡ true = ground arith in
    let new = new_memory_store retention in
    (
      subst
          (λ events.
            Perm (recent user_id since (record_all ds new))
              (keep (λ c. not (before c.time since)) events))
          (record_all-contents user_id ds new positive) (sort-perm newest_first _),
      sort-IsSorted newest_first (λ c d h. ground arith) (λ c d e h k. ground arith) _,
    )
