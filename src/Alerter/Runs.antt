-- ===== src/Alerter/Runs.antt =====
-- What a run of the alerter sends.
use mathlib.Core.List.{flat_map}
use tea_elephant_memory.Prelude.{
  ℕ, ◌≡◌, refl, ap, sym, Bool, true, Bool-cases, inl, inr, List, [], ◌∷◌, ◌++◌, map, keep,
  append_assoc, append-nil, if◌then◌else◌,
}
use tea_elephant_memory.Clock.{Time, before}
use tea_elephant_memory.Domain.{Collection, CollectionRecord, User}
use tea_elephant_memory.Store.{Db, Result, ok, err}
use tea_elephant_memory.Store.Records.{list_collections, list_collection_records}
use tea_elephant_memory.Store.Rows.{statement_healthy}
use tea_elephant_memory.Store.Users.{list_users}
use tea_elephant_memory.Adapter.{Error}
use tea_elephant_memory.Adapter.Collections.{collections, collection_records}
use tea_elephant_memory.Adapter.Users.{get_users}
use tea_elephant_memory.Alerter.{
  Alert, Action, for_each, send, process_record, process_collection_records,
  process_user_collections, run,
}

-- The rows that a read answers, and none where it fails.
abbrev pub rows : {A : Type 0} → Result Error (List A) × Db → List A
rows (ok xs, db) = xs
rows (err e, db) = []

-- The alert of an expired record.
abbrev pub alert_of : ℕ → Collection → CollectionRecord → Alert
alert_of user_id col r = record {
  user_id = user_id;
  item_id = r.id;
  tea_name = r.tea.name;
  collection_name = col.name;
  expiration_date = r.expiration_date;
}

module _ (now : Time) (db : Db) where
  abbrev pub record_alerts : ℕ → Collection → List Alert
  record_alerts user_id col = map (alert_of user_id col) (
      keep (λ (r : CollectionRecord). before r.expiration_date now)
        (rows (collection_records col.id db)))

  -- The alerts due: one for each expired record of each collection of each user.
  abbrev pub due : List Alert
  due =
      flat_map (λ (user : User). flat_map (record_alerts user.id) (rows (collections user.id db)))
        (rows (get_users db))

reads_users : (db : Db) → db.faults ≡ [] → get_users db ≡ (ok (rows (get_users db)), db)
unfolding get_users list_users
reads_users db healthy = rw (statement_healthy _ db healthy)

reads_collections :
    (user_id : ℕ) (db : Db)
    → db.faults ≡ []
    → collections user_id db ≡ (ok (rows (collections user_id db)), db)
unfolding collections list_collections
reads_collections user_id db healthy = rw (statement_healthy _ db healthy)

reads_records :
    (id : ℕ) (db : Db)
    → db.faults ≡ []
    → collection_records id db ≡ (ok (rows (collection_records id db)), db)
unfolding collection_records list_collection_records
reads_records id db healthy = rw (statement_healthy _ db healthy)

-- A loop whose body appends alerts appends those of all its rounds.
for_each_lem :
    {A : Type 0} (db : Db) (f : A → Action (Unit {0})) (g : A → List Alert)
    → ((x : A) (sent : List Alert)
        → f x (record { db = db; sent = sent }) ≡ (ok tt, record { db = db; sent = sent ++ g x }))
    → (xs : List A) (sent : List Alert)
    → for_each f xs (record { db = db; sent = sent })
      ≡ (ok tt, record { db = db; sent = sent ++ flat_map g xs })
unfolding for_each flat_map
for_each_lem db f g h [] sent =
    ap (λ all. (ok tt, record { db = db; sent = all })) (sym (append-nil sent))
for_each_lem db f g h (x ∷ xs) sent =
    rw (h x sent, for_each_lem db f g h xs (sent ++ g x))
      (ap (λ all. (ok tt, record { db = db; sent = all }))
        (append_assoc sent (g x) (flat_map g xs)))

-- What is due of one record.
abbrev record_due : ℕ → Collection → Time → CollectionRecord → List Alert
record_due user_id col now r =
    if before r.expiration_date now then alert_of user_id col r ∷ [] else []

flat_map-record_due :
    (user_id : ℕ) (col : Collection) (now : Time) (rs : List CollectionRecord)
    → flat_map (record_due user_id col now) rs
      ≡ map
          (alert_of user_id col)
          (keep (λ (r : CollectionRecord). before r.expiration_date now) rs)
unfolding keep flat_map
flat_map-record_due user_id col now [] = refl
flat_map-record_due user_id col now (r ∷ rs) = elim (Bool-cases (before r.expiration_date now)) [
  | inl e ↦ rw e (ap (◌∷◌ (alert_of user_id col r)) (flat_map-record_due user_id col now rs))
  | inr e ↦ rw e (flat_map-record_due user_id col now rs)
]

module _ (accepts : Alert → Bool) (now : Time) (db : Db) (healthy : db.faults ≡ [])
    (accepting : (a : Alert) → accepts a ≡ true) where
  process_record_lem :
      (user_id : ℕ) (col : Collection) (r : CollectionRecord) (sent : List Alert)
      → process_record accepts now user_id col r (record { db = db; sent = sent })
        ≡ (ok tt, record { db = db; sent = sent ++ record_due user_id col now r })
  unfolding process_record send
  process_record_lem user_id col r sent = elim (Bool-cases (before r.expiration_date now)) [
    | inl e ↦ rw (e, accepting (alert_of user_id col r))
    | inr e ↦ rw e (ap (λ all. (ok tt, record { db = db; sent = all })) (sym (append-nil sent)))
  ]

  process_collection_records_lem :
      (user_id : ℕ) (col : Collection) (sent : List Alert)
      → process_collection_records accepts now user_id col (record { db = db; sent = sent })
        ≡ (ok tt, record { db = db; sent = sent ++ record_alerts now db user_id col })
  unfolding process_collection_records
  process_collection_records_lem user_id col sent =
      rw
        (
          reads_records col.id db healthy,
          for_each_lem db (process_record accepts now user_id col) (record_due user_id col now)
              (process_record_lem user_id col) (rows (collection_records col.id db)) sent,
        )
        (ap (λ alerts. (ok tt, record { db = db; sent = sent ++ alerts }))
          (flat_map-record_due user_id col now (rows (collection_records col.id db))))

  process_user_collections_lem :
      (user_id : ℕ) (sent : List Alert)
      → process_user_collections accepts now user_id (record { db = db; sent = sent }) ≡ (
        ok tt,
        record {
          db = db;
          sent = sent ++ flat_map (record_alerts now db user_id) (rows (collections user_id db));
        },
      )
  unfolding process_user_collections
  process_user_collections_lem user_id sent = rw (
    reads_collections user_id db healthy,
    for_each_lem db (process_collection_records accepts now user_id) (record_alerts now db user_id)
        (process_collection_records_lem user_id) (rows (collections user_id db)) sent,
  )

  -- On a healthy connection, with a sender that accepts every alert, a run succeeds, changes nothing
  -- in the database, and sends, user by user, collection by collection, one alert for each record
  -- that has expired, and no other.
  pub run_lem :
      (sent : List Alert)
      → run accepts now (record { db = db; sent = sent })
        ≡ (ok tt, record { db = db; sent = sent ++ due now db })
  unfolding run
  run_lem sent = rw (
    reads_users db healthy,
    for_each_lem db (λ (user : User). process_user_collections accepts now user.id)
        (λ user. flat_map (record_alerts now db user.id) (rows (collections user.id db)))
        (λ user. process_user_collections_lem user.id) (rows (get_users db)) sent,
  )
