-- ===== src/TeaOfTheDayCache.antt =====
-- pkg/api/v2/graphql/teaoftheday_cache.go: the tea of the day of each user, until the next midnight. Get
-- is two steps, a lookup under the read lock and, for an entry that has expired, an eviction under
-- the write lock; other calls may come between them.
pub mod Answers
mod Tests
use tea_elephant_memory.Prelude.{
  ℕ, Bool, Option, none, some, List, [], ◌∷◌, ℤ, pos, ◌+ℤ◌, if◌then◌else◌, ◌≡◌, leb_ℤ, Map, insert,
  delete,
}
use tea_elephant_memory.Clock.{Time, before}

-- What time.Location gives: the day of an instant (t.Date), days being numbered, and the midnight of a day
-- (time.Date, which takes the day after the last of a month for the first of the next).
pub record Location : Type 0 where
  pub day : Time → ℤ
  pub midnight : ℤ → Time

-- A day lasts from its midnight until the next day's. So it is in every place whose clocks do not change
-- at midnight.
abbrev pub IsCalendar : Location → Type 0
IsCalendar loc = (t : Time) (d : ℤ) → leb_ℤ (loc.midnight d) t ≡ leb_ℤ d (loc.day t)

unfoldable pub next_midnight : Location → Time → Time
next_midnight loc t = loc.midnight (loc.day t +ℤ pos 1)

pub record CachedTeaOfTheDay (V : Type 0) : Type 0 where
  pub val : V
  pub expires_at : Time

abbrev pub TeaOfTheDayCache : Type 0 → Type 0
TeaOfTheDayCache V = Map (CachedTeaOfTheDay V)

module _ {V : Type 0} where
  unfoldable pub new_tea_of_the_day_cache : TeaOfTheDayCache V
  new_tea_of_the_day_cache id = none

  answer_of : Time → Option (CachedTeaOfTheDay V) → Option V
  answer_of now none = none
  answer_of now (some entry) = if before now entry.expires_at then some entry.val else none

  -- The answer of Get.
  unfoldable pub get : ℕ → Time → TeaOfTheDayCache V → Option V
  unfolding answer_of
  get user_id now c = answer_of now (c user_id)

  evict_entry : ℕ → Time → Option (CachedTeaOfTheDay V) → TeaOfTheDayCache V → TeaOfTheDayCache V
  evict_entry user_id now none c = c
  evict_entry user_id now (some entry) c =
      if before now entry.expires_at then c else delete user_id c

  -- The second step of a Get that found an entry expired: it looks again.
  pub evict : ℕ → Time → TeaOfTheDayCache V → TeaOfTheDayCache V
  unfolding evict_entry
  evict user_id now c = evict_entry user_id now (c user_id) c

  -- Set
  pub set_entry : Location → ℕ → V → Time → TeaOfTheDayCache V → TeaOfTheDayCache V
  set_entry loc user_id v now =
      insert user_id (record { val = v; expires_at = next_midnight loc now })
