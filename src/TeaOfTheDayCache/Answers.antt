-- ===== src/TeaOfTheDayCache/Answers.antt =====
-- What Get answers after any interleaving of the steps of Set and Get.
use tea_elephant_memory.Prelude.{
  ℕ, ◌≡◌, refl, ap, ◌∙◌, false, Bool-cases, inl, inr, Option, Option-cases, none, some, List, [],
  ◌∷◌, true, ◌==◌, ==_refl, arith, ◌≤ℤ◌, ℤ, pos, ◌+ℤ◌, +ℤ_parts, leb_ℤ, ltb_ℤ, if◌then◌else◌,
}
use tea_elephant_memory.Clock.{Time, before}
use tea_elephant_memory.TeaOfTheDayCache.{
  Location, IsCalendar, next_midnight, TeaOfTheDayCache, new_tea_of_the_day_cache, answer_of, get,
  evict_entry, evict, set_entry,
}

-- A step that changes the cache, of any goroutine.
pub data Step (V : Type 0) : Type 0 where
  stores : ℕ → V → Time → Step V
  evicts : ℕ → Time → Step V

ends : (now m d e : ℤ) → leb_ℤ m now ≡ leb_ℤ (d +ℤ pos 1) e → ltb_ℤ now m ≡ leb_ℤ e d
ends now m d e h = ground (arith, +ℤ_parts d (pos 1))

-- The next midnight ends the day.
before-next_midnight :
    (loc : Location)
    → IsCalendar loc
    → (t now : Time) → before now (next_midnight loc t) ≡ leb_ℤ (loc.day now) (loc.day t)
unfolding next_midnight
before-next_midnight loc calendar t now =
    ends now (loc.midnight (loc.day t +ℤ pos 1)) (loc.day t) (loc.day now)
      (calendar now (loc.day t +ℤ pos 1))

module _ {V : Type 0} (loc : Location) where
  unfoldable pub run : List (Step V) → TeaOfTheDayCache V → TeaOfTheDayCache V
  run [] c = c
  run (stores u v t ∷ steps) c = run steps (set_entry loc u v t c)
  run (evicts u t ∷ steps) c = run steps (evict u t c)

  -- The value of the user's last Set, if now is of no later day than that; else the answer before.
  abbrev pub last_stored : ℕ → Time → List (Step V) → Option V → Option V
  last_stored user_id now [] a = a
  last_stored user_id now (stores u v t ∷ steps) a =
      last_stored user_id now steps
        (if user_id == u then (if leb_ℤ (loc.day now) (loc.day t) then some v else none) else a)
  last_stored user_id now (evicts u t ∷ steps) a = last_stored user_id now steps a

  -- Every eviction happened by now.
  abbrev pub EvictedBy : Time → List (Step V) → Type 0
  EvictedBy now [] = Unit
  EvictedBy now (stores u v t ∷ steps) = EvictedBy now steps
  EvictedBy now (evicts u t ∷ steps) = t ≤ℤ now × EvictedBy now steps

  pub get-set_entry :
      (user_id u : ℕ) (v : V) (t now : Time) (c : TeaOfTheDayCache V)
      → get user_id now (set_entry loc u v t c) ≡ (
          if user_id == u
          then (if before now (next_midnight loc t) then some v else none)
          else get user_id now c)
  unfolding get set_entry answer_of
  get-set_entry user_id u v t now c = elim (Bool-cases (user_id == u)) [
    | inl e ↦ rw e
    | inr e ↦ rw e
  ]

  pub get-evict :
      (user_id u : ℕ) (t now : Time) (c : TeaOfTheDayCache V)
      → t ≤ℤ now
      → get user_id now (evict u t c) ≡ get user_id now c
  unfolding get evict evict_entry answer_of
  get-evict user_id u t now c h = elim (Option-cases (c u)) [
    | inl e ↦ rw e
    | inr (entry, e) ↦ elim (Bool-cases (before t entry.expires_at)) [
      | inl live ↦ rw (e, live)
      | inr expired ↦ elim (Bool-cases (user_id == u)) [
        | inl mine ↦
            let same : user_id ≡ u = ground arith in
            let gone : before now entry.expires_at ≡ false = ground arith in
            let found : c user_id ≡ some entry = ap c same ∙ e in rw (e, expired, mine, found, gone)
        | inr other ↦ rw (e, expired, other)
      ]
    ]
  ]

  -- A value that is still good is not evicted.
  pub evict-set_entry :
      (user_id : ℕ) (v : V) (t now : Time) (c : TeaOfTheDayCache V)
      → before now (next_midnight loc t) ≡ true
      → evict user_id now (set_entry loc user_id v t c) ≡ set_entry loc user_id v t c
  unfolding evict set_entry evict_entry
  evict-set_entry user_id v t now c live = rw (==_refl user_id, live) refl

  run_lem :
      (user_id : ℕ) (now : Time) (steps : List (Step V)) (c : TeaOfTheDayCache V)
      → IsCalendar loc
      → EvictedBy now steps
      → get user_id now (run steps c) ≡ last_stored user_id now steps (get user_id now c)
  unfolding run
  run_lem user_id now [] c calendar h = refl
  run_lem user_id now (stores u v t ∷ steps) c calendar h = rw (
    run_lem user_id now steps (set_entry loc u v t c) calendar h,
    get-set_entry user_id u v t now c,
    before-next_midnight loc calendar t now,
  )
  run_lem user_id now (evicts u t ∷ steps) c calendar h =
      rw (run_lem user_id now steps (evict u t c) calendar h.1, get-evict user_id u t now c h.0)

  -- On a new cache, after any interleaving of the steps of Set and of Get by any goroutines, where no
  -- eviction is of a later time than now, and in a place where a day lasts from its midnight until the
  -- next day's: Get answers the value of the user's last Set while now is of no later day than that
  -- Set, and else nothing. No eviction loses a value that is still good.
  pub get-run :
      (user_id : ℕ) (now : Time) (steps : List (Step V))
      → IsCalendar loc
      → EvictedBy now steps
      → get user_id now (run steps new_tea_of_the_day_cache) ≡ last_stored user_id now steps none
  unfolding get new_tea_of_the_day_cache answer_of
  get-run user_id now steps calendar h =
      run_lem user_id now steps new_tea_of_the_day_cache calendar h
