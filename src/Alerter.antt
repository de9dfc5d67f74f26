-- ===== src/Alerter.antt =====
-- internal/expiration/alerter.go: a run over all users, their collections and the records in them, which
-- sends an alert for each record that has expired. The sender, an interface, is an argument: what
-- it accepts. The text of an alert is kept as the parts that it is printed from. One instant stands for
-- the readings of the clock at each record.
pub mod Runs
mod Tests
use tea_elephant_memory.Prelude.{ℕ, Bool, List, [], ◌∷◌, ◌++◌, not, if◌then◌else◌, Bytes}
use tea_elephant_memory.Clock.{Time, before}
use tea_elephant_memory.Domain.{Collection, CollectionRecord, User}
use tea_elephant_memory.Store.{Db, Result, ok, err, Exec}
use tea_elephant_memory.Adapter.{Error}
use tea_elephant_memory.Adapter.Collections.{collections, collection_records}
use tea_elephant_memory.Adapter.Users.{get_users}

pub record Alert : Type 0 where
  pub user_id : ℕ
  pub item_id : ℕ
  pub tea_name : Bytes
  pub collection_name : Bytes
  pub expiration_date : Time

-- An error of the storage, or the sender's.
pub data AlertError : Type 0 where
  storage_failed : Error → AlertError
  send_failed : Alert → AlertError

-- The database, and the alerts sent, in order.
pub record State : Type 0 where
  pub db : Db
  pub sent : List Alert

abbrev pub Action : Type 0 → Type 0
Action A = State → Result AlertError A × State

abbrev and_then_result :
    {A B : Type 0} → Result AlertError A × State → (A → Action B) → Result AlertError B × State
and_then_result (ok a, s) f = f a s
and_then_result (err e, s) f = (err e, s)

infixl 5 ◌>>=◌
abbrev pub ◌>>=◌ : {A B : Type 0} → Action A → (A → Action B) → Action B
◌>>=◌ m f s = and_then_result (m s) f

infixl 5 ◌>>◌
abbrev pub ◌>>◌ : {B : Type 0} → Action (Unit {0}) → Action B → Action B
m >> k = m >>= λ _. k

abbrev from_storage_result :
    {A : Type 0} → List Alert → Result Error A × Db → Result AlertError A × State
from_storage_result sent (ok a, db) = (ok a, record { db = db; sent = sent })
from_storage_result sent (err e, db) = (err (storage_failed e), record { db = db; sent = sent })

abbrev pub from_storage : {A : Type 0} → Exec Error A → Action A
from_storage m s = from_storage_result s.sent (m s.db)

abbrev pub done : Action (Unit {0})
done s = (ok tt, s)

-- The loops that stop at the first error.
pub for_each : {A : Type 0} → (A → Action (Unit {0})) → List A → Action (Unit {0})
for_each f [] = done
for_each f (x ∷ xs) = f x >> for_each f xs

module _ (accepts : Alert → Bool) (now : Time) where
  pub send : Alert → Action (Unit {0})
  send alert s =
      if accepts alert
      then (ok tt, record s { sent = s.sent ++ alert ∷ [] })
      else (err (send_failed alert), s)

  pub process_record : ℕ → Collection → CollectionRecord → Action (Unit {0})
  unfolding send
  process_record user_id col r =
      if not (before r.expiration_date now)
      then done
      else send (record {
        user_id = user_id;
        item_id = r.id;
        tea_name = r.tea.name;
        collection_name = col.name;
        expiration_date = r.expiration_date;
      })

  pub process_collection_records : ℕ → Collection → Action (Unit {0})
  unfolding process_record for_each
  process_collection_records user_id col = do
    records ← from_storage (collection_records col.id)
    for_each (process_record user_id col) records

  pub process_user_collections : ℕ → Action (Unit {0})
  unfolding process_collection_records for_each
  process_user_collections user_id = do
    cols ← from_storage (collections user_id)
    for_each (process_collection_records user_id) cols

  pub run : Action (Unit {0})
  unfolding process_user_collections for_each
  run = do
    users ← from_storage get_users
    for_each (λ (user : User). process_user_collections user.id) users
