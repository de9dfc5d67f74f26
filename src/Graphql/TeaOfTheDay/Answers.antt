-- ===== src/Graphql/TeaOfTheDay/Answers.antt =====
-- What a user gets who has records and no tea of the day yet.
use tea_elephant_memory.Prelude.{
  ℕ, ◌≡◌, ◌≢◌, refl, [], true, none, some, List, ==_ne, ==_refl, ◌≤ℤ◌, In, All,
}
use tea_elephant_memory.Clock.{Time, before}
use tea_elephant_memory.Scoring.{select_best}
use tea_elephant_memory.Store.{Db, ok}
use tea_elephant_memory.Models.{Collection, QrRecord}
use tea_elephant_memory.Managers.Collections as Manager
use tea_elephant_memory.TeaOfTheDayCache.{next_midnight, set_entry}
use tea_elephant_memory.TeaOfTheDayCache as Cache
use tea_elephant_memory.TeaOfTheDayCache.Answers.{get-set_entry, evict-set_entry}
use tea_elephant_memory.Auth.{ValidUser}
use tea_elephant_memory.Auth.Requests.{Principals, get_user}
use tea_elephant_memory.Graphql.TeaOfTheDay.{
  TeaOfTheDay, Gathered, nothing, gather_records, Services, State, last_times, scores_for, choose,
  conclude, tea_of_the_day,
}
use tea_elephant_memory.Graphql.TeaOfTheDay.Gathering.{IsGathered, nothing-IsGathered}
use tea_elephant_memory.Graphql.TeaOfTheDay.Gathering.Loop.{gather_records-IsGathered}
use tea_elephant_memory.Graphql.TeaOfTheDay.Listing.{listed, gather-listed}
use tea_elephant_memory.Graphql.TeaOfTheDay.Choice.{
  score_of, IsEarliest, In-All, choice_lem, candidates_nonempty,
}

module _ {S : Type 0} (services : Services S) where
  -- No record that is the earliest of its tea has a higher total score.
  abbrev pub IsBest : ℕ → Time → List QrRecord → S → QrRecord → Type 0
  IsBest user_id now recs s rec =
      (q : QrRecord)
      → In q recs
      → IsEarliest recs q
      → score_of (scores_for services now (gather_records services.normal recs nothing))
          (last_times services user_id now s) now q
        ≤ℤ score_of (scores_for services now (gather_records services.normal recs nothing))
            (last_times services user_id now s) now rec

  -- The state after rec became the tea of the day.
  abbrev pub answered : ℕ → Time → QrRecord → Db → State S → State S
  answered user_id now rec db st = record {
    db = db;
    cache =
        set_entry services.location user_id (record { tea = rec; date = now }) now
          (Cache.evict user_id now st.cache);
    consumption = services.record_consumption user_id rec.tea.id now st.consumption;
  }

  conclude_lem :
      (user_id : ℕ) (now : Time) (best : ℕ) (g : Gathered) (rec : QrRecord) (db : Db) (st : State S)
      → best ≡ rec.tea.id
      → rec.tea.id ≢ 0
      → g.earliest_rec rec.tea.id ≡ some rec
      → conclude services user_id now best g (record {
        db = db;
        cache = Cache.evict user_id now st.cache;
        consumption = st.consumption;
      })
        ≡ (ok (record { tea = rec; date = now }), answered user_id now rec db st)
  unfolding conclude
  conclude_lem user_id now best g rec db st same named found =
      rw (same, ==_ne rec.tea.id 0 named, found) refl

  again :
      (ctx : Principals) (now later : Time) (st : State S) (user : ValidUser) (rec : QrRecord)
      (db : Db)
      → get_user ctx ≡ ok user
      → before later (next_midnight services.location now) ≡ true
      → tea_of_the_day services ctx later (answered user.id now rec db st)
        ≡ (ok (record { tea = rec; date = now }), answered user.id now rec db st)
  unfolding tea_of_the_day
  again ctx now later st user rec db signed soon =
      let res : TeaOfTheDay = record { tea = rec; date = now } in
      rw
        (
          signed,
          evict-set_entry services.location user.id res now later (Cache.evict user.id now st.cache)
              soon,
          get-set_entry services.location user.id user.id res now later
              (Cache.evict user.id now st.cache),
          ==_refl user.id,
          soon,
        )
        refl

  -- For a signed-in user with no tea of the day that is still good, whose collections list the records
  -- recs, at least one and none of a tea with the nil identifier, TeaOfTheDay answers a record rec of
  -- recs with the date now: no record of its tea expires earlier, and no record that is the earliest of
  -- its tea has a higher total score, by the scores of the names gathered and the teas lately drunk. It
  -- records the consumption of that tea and keeps the answer; every call by the user at a later time
  -- that is before the next midnight answers the same, date and record, and changes nothing.
  pub tea_of_the_day_lem :
      (ctx : Principals) (now later : Time) (st : State S) (user : ValidUser)
      (cols : List Collection) (recs : List QrRecord) (r : QrRecord) (db1 db2 : Db)
      → get_user ctx ≡ ok user
      → Cache.get user.id now st.cache ≡ none
      → Manager.list user.id st.db ≡ (ok cols, db1)
      → listed user.id cols db1 ≡ (ok recs, db2)
      → In r recs
      → All (λ (q : QrRecord). q.tea.id ≢ 0) recs
      → before later (next_midnight services.location now) ≡ true
      → (rec : QrRecord) × In rec recs
        × IsEarliest recs rec
        × IsBest user.id now recs st.consumption rec
        × (tea_of_the_day services ctx now st
            ≡ (ok (record { tea = rec; date = now }), answered user.id now rec db2 st))
        × (tea_of_the_day services ctx later (answered user.id now rec db2 st)
            ≡ (ok (record { tea = rec; date = now }), answered user.id now rec db2 st))
  unfolding tea_of_the_day choose
  tea_of_the_day_lem ctx now later st user cols recs r db1 db2 signed uncached has_cols has_recs m
        named soon =
      let g = gather_records services.normal recs nothing in
      let all_gathered : IsGathered recs g =
        gather_records-IsGathered services.normal recs [] nothing nothing-IsGathered in
      let (rec, best, found, among, earliest, highest) =
        choice_lem recs g all_gathered (scores_for services now g)
          (last_times services user.id now st.consumption) now r m named in
      (
        rec,
        among,
        earliest,
        highest,
        rw
            (
              signed,
              uncached,
              has_cols,
              gather-listed services.normal user.id cols nothing db1,
              has_recs,
              candidates_nonempty recs g all_gathered r m,
              conclude_lem user.id now
                  (select_best (scores_for services now g) g.candidates
                    (last_times services user.id now st.consumption) now).0
                  g rec db2 st best (In-All (λ (q : QrRecord). q.tea.id ≢ 0) recs rec named among)
                  found,
            )
            refl,
        again ctx now later st user rec db2 signed soon,
      )
