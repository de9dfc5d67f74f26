-- ===== src/Managers/Teas.antt =====
-- internal/managers/tea/manager.go and loop.go: the tea manager, with the queues of its events and the
-- loop that hands them to the subscribers. A method is one step; so is a round of the loop, from
-- the event that it takes to the end of the cleaning. A method that waits on a full queue has
-- written to the storage already.
pub mod Subscribers
pub mod Rounds
pub mod Soundness
pub mod Histories
pub mod Changes
mod Tests
use tea_elephant_memory.Prelude.{
  ℕ, ◌<◌, Bool, Option, none, some, List, [], ◌∷◌, ◌++◌, length, ltb, if◌then◌else◌, Bytes,
}
use tea_elephant_memory.Clock.{Time}
use tea_elephant_memory.Domain as Common
use tea_elephant_memory.Store.{Db, Postgres, Result, ok, err, Exec}
use tea_elephant_memory.Subscribers.{
  State, Outcome, new_subscribers, clean_done, send_all, subscribe, ◌>>=◌,
}
use tea_elephant_memory.Managers.Teas.Subscribers.{
  IdSubscribers, TeaSubscribers, new_id_subscribers, new_tea_subscribers, clean_done_id,
  clean_done_tea, send_all_id, send_all_tea,
}
use tea_elephant_memory.Adapter.{Error}
use tea_elephant_memory.Adapter.Teas.{
  write_record, read_record, read_all_records, update_record, delete_record,
}
use tea_elephant_memory.Models.{Tea, from_common_tea}

-- The capacity of each queue.
abbrev pub queue_size : ℕ
queue_size = 100

pub record TeaManager : Type 0 where
  pub db : Db
  pub create_subscribers : TeaSubscribers
  pub update_subscribers : TeaSubscribers
  pub delete_subscribers : IdSubscribers
  pub created : List Common.Tea
  pub updated : List Common.Tea
  pub deleted : List ℕ

unfoldable pub new_manager : Db → TeaManager
new_manager db = record {
  db = db;
  create_subscribers = new_tea_subscribers;
  update_subscribers = new_tea_subscribers;
  delete_subscribers = new_id_subscribers;
  created = [];
  updated = [];
  deleted = [];
}

-- A method answers, or waits until the loop makes room on a full queue.
pub data Reply (A : Type 0) : Type 0 where
  answers : Result Error A → Reply A
  waits : Reply A

abbrev pub Method : Type 0 → Type 0
Method A = TeaManager → Reply A × TeaManager

unfoldable pub send_created : Result Error Common.Tea → Method Common.Tea
send_created (err e) m = (answers (err e), m)
send_created (ok tea) m =
    if ltb (length m.created) queue_size
    then (answers (ok tea), record m { created = m.created ++ tea ∷ [] })
    else (waits, m)

unfoldable pub create : ℕ → Time → Common.TeaData → Method Common.Tea
unfolding send_created
create id now data_ m =
    let (result, db) = write_record id now data_ m.db in send_created result (record m { db = db })

unfoldable pub send_updated : Result Error Common.Tea → Method Common.Tea
send_updated (err e) m = (answers (err e), m)
send_updated (ok tea) m =
    if ltb (length m.updated) queue_size
    then (answers (ok tea), record m { updated = m.updated ++ tea ∷ [] })
    else (waits, m)

unfoldable pub update : ℕ → Common.TeaData → Method Common.Tea
unfolding send_updated
update id rec m =
    let (result, db) = update_record id rec m.db in send_updated result (record m { db = db })

unfoldable pub send_deleted : ℕ → Result Error (Unit {0}) → Method (Unit {0})
send_deleted id (err e) m = (answers (err e), m)
send_deleted id (ok done) m =
    if ltb (length m.deleted) queue_size
    then (answers (ok tt), record m { deleted = m.deleted ++ id ∷ [] })
    else (waits, m)

unfoldable pub delete : ℕ → Method (Unit {0})
unfolding send_deleted
delete id m =
    let (result, db) = delete_record id m.db in send_deleted id result (record m { db = db })

unfoldable pub get : ℕ → Method Common.Tea
get id m = let (result, db) = read_record id m.db in (answers result, record m { db = db })

search_text : Option Bytes → Bytes
search_text none = []
search_text (some search) = search

unfoldable pub list : Postgres → Option Bytes → Method (List Common.Tea)
unfolding search_text
list pg search m =
    let (result, db) = read_all_records pg (search_text search) m.db in
    (answers result, record m { db = db })

unfoldable pub subscribe_on_create : ℕ → TeaManager → TeaManager × ℕ
subscribe_on_create ctx m =
    let (subs, ch) = subscribe ctx m.create_subscribers in
    (record m { create_subscribers = subs }, ch)

unfoldable pub subscribe_on_update : ℕ → TeaManager → TeaManager × ℕ
subscribe_on_update ctx m =
    let (subs, ch) = subscribe ctx m.update_subscribers in
    (record m { update_subscribers = subs }, ch)

unfoldable pub subscribe_on_delete : ℕ → TeaManager → TeaManager × ℕ
subscribe_on_delete ctx m =
    let (subs, ch) = subscribe ctx m.delete_subscribers in
    (record m { delete_subscribers = subs }, ch)

-- Who receives, on the channels of each collection, and which contexts are done, during a round.
pub record Environment : Type 0 where
  pub on_create : ℕ → Bool
  pub on_update : ℕ → Bool
  pub on_delete : ℕ → Bool
  pub is_done : ℕ → Bool

unfoldable pub clean_all : Environment → TeaManager → Outcome TeaManager
clean_all env m = do
  creates ← clean_done_tea env.is_done m.create_subscribers
  updates ← clean_done_tea env.is_done m.update_subscribers
  deletes ← clean_done_id env.is_done m.delete_subscribers
  Outcome.ok (record m {
    create_subscribers = creates;
    update_subscribers = updates;
    delete_subscribers = deletes;
  })

-- The case that the select statement takes.
pub data Case : Type 0 where
  takes_created : Case
  takes_updated : Case
  takes_deleted : Case

handle_created : Environment → List Common.Tea → TeaManager → Option (Outcome TeaManager)
handle_created env [] m = none
handle_created env (tea ∷ rest) m = some (do
  subs ← send_all_tea env.on_create (from_common_tea tea) m.create_subscribers
  clean_all env (record m { created = rest; create_subscribers = subs }))

handle_updated : Environment → List Common.Tea → TeaManager → Option (Outcome TeaManager)
handle_updated env [] m = none
handle_updated env (tea ∷ rest) m = some (do
  subs ← send_all_tea env.on_update (from_common_tea tea) m.update_subscribers
  clean_all env (record m { updated = rest; update_subscribers = subs }))

handle_deleted : Environment → List ℕ → TeaManager → Option (Outcome TeaManager)
handle_deleted env [] m = none
handle_deleted env (id ∷ rest) m = some (do
  subs ← send_all_id env.on_delete id m.delete_subscribers
  clean_all env (record m { deleted = rest; delete_subscribers = subs }))

-- A round of the loop; a case whose queue is empty is not taken.
unfoldable pub round : Environment → Case → TeaManager → Option (Outcome TeaManager)
unfolding handle_created handle_updated handle_deleted
round env takes_created m = handle_created env m.created m
round env takes_updated m = handle_updated env m.updated m
round env takes_deleted m = handle_deleted env m.deleted m
