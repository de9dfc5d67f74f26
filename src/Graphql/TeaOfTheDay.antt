-- ===== src/Graphql/TeaOfTheDay.antt =====
-- pkg/api/v2/graphql/schema.resolvers.go: TeaOfTheDay. What it calls of other services (the weather, the
-- scores of the adviser, the store of consumptions, strings.ToLower after strings.TrimSpace) is the
-- record Services; a weather that cannot be had is the zero weather, a failed call the empty answer. What
-- is logged is left out, and SelectBestWithLogging answers what SelectBest does. Every record of the
-- collection manager has its tea, so the test for a record without one never skips.
pub mod Gathering
pub mod Listing
pub mod Choice
pub mod Answers
mod Tests
use tea_elephant_memory.Prelude.{
  ℕ, zero, suc, Bool, true, false, Option, none, some, List, [], ◌∷◌, ◌++◌, length, ◌==◌,
  if◌then◌else◌, Bytes, bytes_eq, ℤ, ◌-ℤ◌, Map, insert,
}
use tea_elephant_memory.Clock.{Time, before, after, hours}
use tea_elephant_memory.Scoring.{Candidate, select_best}
use tea_elephant_memory.Store.{Db, Result, ok, err}
use tea_elephant_memory.Adapter as Adapter
use tea_elephant_memory.Consumption.{Consumption}
use tea_elephant_memory.Models.{Collection, QrRecord}
use tea_elephant_memory.Managers.Collections as Manager
use tea_elephant_memory.TeaOfTheDayCache.{Location, TeaOfTheDayCache, set_entry}
use tea_elephant_memory.TeaOfTheDayCache as Cache
use tea_elephant_memory.Domain.{CommonError}
use tea_elephant_memory.Auth.{ValidUser}
use tea_elephant_memory.Auth.Requests.{Principals, get_user}
use tea_elephant_memory.Graphql.{
  GqlError, no_teas, no_tea_candidates, common, storage, cast_gql_error,
}

-- model.TeaOfTheDay
pub record TeaOfTheDay : Type 0 where
  pub tea : QrRecord
  pub date : Time

-- The variables of the loop over the records. The later of two teas of one name, up to the lower case and
-- surrounding blanks, has the name in name_to_id, whose latest entry is the first.
pub record Gathered : Type 0 where
  pub earliest_rec : Map QrRecord
  pub candidates : List Candidate
  pub names : List Bytes
  pub name_to_id : List (Bytes × ℕ)
  pub id_to_idx : Map ℕ

abbrev pub nothing : Gathered
nothing = record {
  earliest_rec = λ id. none;
  candidates = [];
  names = [];
  name_to_id = [];
  id_to_idx = λ id. none;
}

-- candidates[i].Expiration = t
pub set_expiration : List Candidate → ℕ → Time → List Candidate
set_expiration [] i t = []
set_expiration (c ∷ cs) zero t = record c { expiration = t } ∷ cs
set_expiration (c ∷ cs) (suc i) t = c ∷ set_expiration cs i t

abbrev pub expire_at : Option ℕ → Time → List Candidate → List Candidate
expire_at none t cs = cs
expire_at (some i) t cs = set_expiration cs i t

abbrev pub earlier_record : QrRecord → Gathered → Gathered
earlier_record rec g = record g {
  earliest_rec = insert rec.tea.id rec g.earliest_rec;
  candidates = expire_at (g.id_to_idx rec.tea.id) rec.expiration_date g.candidates;
}

module _ (normal : Bytes → Bytes) where
  abbrev pub add_tea : QrRecord → Gathered → Gathered
  add_tea rec g = record {
    earliest_rec = insert rec.tea.id rec g.earliest_rec;
    candidates =
        g.candidates
        ++ record { id = rec.tea.id; name = rec.tea.name; expiration = rec.expiration_date } ∷ [];
    names = g.names ++ rec.tea.name ∷ [];
    name_to_id = (normal rec.tea.name, rec.tea.id) ∷ g.name_to_id;
    id_to_idx = insert rec.tea.id (length g.candidates) g.id_to_idx;
  }

  abbrev pub gather_seen : Option QrRecord → QrRecord → Gathered → Gathered
  gather_seen none rec g = add_tea rec g
  gather_seen (some prev) rec g =
      if before rec.expiration_date prev.expiration_date then earlier_record rec g else g

  pub gather_record : QrRecord → Gathered → Gathered
  unfolding set_expiration
  gather_record rec g = gather_seen (g.earliest_rec rec.tea.id) rec g

  pub gather_records : List QrRecord → Gathered → Gathered
  unfolding gather_record
  gather_records [] g = g
  gather_records (rec ∷ recs) g = gather_records recs (gather_record rec g)

  -- The loop over the collections, up to a failed call.
  pub gather : ℕ → List Collection → Gathered → Db → Result Adapter.Error Gathered × Db
  unfolding gather_records
  gather user_id [] g db = (ok g, db)
  gather user_id (c ∷ cs) g db =
      let (result, db') = Manager.list_records c.id user_id db in
      elim result [ ok recs ↦ gather user_id cs (gather_records recs g) db' | err e ↦ (err e, db') ]

-- The latest time of each tea.
pub last_by : List Consumption → Map Time → Map Time
last_by [] m = m
last_by (c ∷ cs) m = last_by cs (elim (m c.tea_id) [
  | none ↦ insert c.tea_id c.time m
  | some t ↦ if after c.time t then insert c.tea_id c.time m else m
])

pub id_of_name : Bytes → List (Bytes × ℕ) → Option ℕ
id_of_name name [] = none
id_of_name name ((known, id) ∷ entries) =
    if bytes_eq known name then some id else id_of_name name entries

-- The loop over the scores; Go visits the map's entries in any order, here the list's.
pub ai_scores_of : (Bytes → Bytes) → List (Bytes × ℕ) → List (Bytes × ℤ) → Map ℤ → Map ℤ
unfolding id_of_name
ai_scores_of normal name_to_id [] m = m
ai_scores_of normal name_to_id ((name, score) ∷ scores) m =
    ai_scores_of normal name_to_id scores
      (elim (id_of_name (normal name) name_to_id) [ none ↦ m | some id ↦ insert id score m ])

-- The services, with the state S of the store of consumptions.
pub record Services (S : Type 0) : Type 0 where
  pub normal : Bytes → Bytes
  pub context_scores : List Bytes → Time → List (Bytes × ℤ)
  pub recent : ℕ → Time → S → List Consumption
  pub record_consumption : ℕ → ℕ → Time → S → S
  pub location : Location

pub record State (S : Type 0) : Type 0 where
  pub db : Db
  pub cache : TeaOfTheDayCache TeaOfTheDay
  pub consumption : S

abbrev pub is_empty : List Candidate → Bool
is_empty [] = true
is_empty (c ∷ cs) = false

module _ {S : Type 0} (services : Services S) where
  pub last_times : ℕ → Time → S → Map Time
  unfolding last_by
  last_times user_id now s = last_by (services.recent user_id (now -ℤ hours 96) s) (λ id. none)

  pub scores_for : Time → Gathered → Map ℤ
  unfolding ai_scores_of
  scores_for now g =
      ai_scores_of services.normal g.name_to_id (services.context_scores g.names now) (λ id. none)

  -- The best of the candidates; the nil identifier where there is none.
  pub choose : ℕ → Time → Gathered → S → ℕ
  unfolding last_times scores_for
  choose user_id now g s =
      (select_best (scores_for now g) g.candidates (last_times user_id now s) now).0

  abbrev pub answer_record :
      ℕ → Time → Option QrRecord → State S → Result GqlError TeaOfTheDay × State S
  answer_record user_id now none st = (err no_tea_candidates, st)
  answer_record user_id now (some rec) st =
      let res : TeaOfTheDay = record { tea = rec; date = now } in
      (ok res, record st { cache = set_entry services.location user_id res now st.cache })

  -- From the choice on.
  pub conclude : ℕ → Time → ℕ → Gathered → State S → Result GqlError TeaOfTheDay × State S
  conclude user_id now best g st =
      if best == 0
      then (err no_tea_candidates, st)
      else answer_record user_id now (g.earliest_rec best)
          (record st { consumption = services.record_consumption user_id best now st.consumption })

  -- The map of earliest records is empty exactly where there are no candidates.
  abbrev pub after_gather :
      ℕ
      → Time
      → State S
      → Result Adapter.Error Gathered × Db
      → Result GqlError TeaOfTheDay × State S
  after_gather user_id now st (err e, db) =
      (err (cast_gql_error (storage e)), record st { db = db })
  after_gather user_id now st (ok g, db) =
      if is_empty g.candidates
      then (err no_teas, record st { db = db })
      else conclude user_id now (choose user_id now g st.consumption) g (record st { db = db })

  abbrev pub after_list :
      ℕ
      → Time
      → State S
      → Result Adapter.Error (List Collection) × Db
      → Result GqlError TeaOfTheDay × State S
  after_list user_id now st (err e, db) = (err (cast_gql_error (storage e)), record st { db = db })
  after_list user_id now st (ok cols, db) =
      after_gather user_id now st (gather services.normal user_id cols nothing db)

  abbrev pub unless_cached :
      ℕ → Time → State S → Option TeaOfTheDay → Result GqlError TeaOfTheDay × State S
  unless_cached user_id now st (some cached) = (ok cached, st)
  unless_cached user_id now st none = after_list user_id now st (Manager.list user_id st.db)

  -- An expired entry that the lookup finds is evicted.
  abbrev pub for_user :
      Time → State S → Result CommonError ValidUser → Result GqlError TeaOfTheDay × State S
  for_user now st (err e) = (err (cast_gql_error (common e)), st)
  for_user now st (ok user) =
      unless_cached user.id now (record st { cache = Cache.evict user.id now st.cache })
        (Cache.get user.id now st.cache)

  pub tea_of_the_day : Principals → Time → State S → Result GqlError TeaOfTheDay × State S
  unfolding gather choose conclude
  tea_of_the_day ctx now st = for_user now st (get_user ctx)
