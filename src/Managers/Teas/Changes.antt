-- ===== src/Managers/Teas/Changes.antt =====
-- What a call of Create or Delete leaves in the storage and on the queue of its events.
use tea_elephant_memory.Prelude.{ℕ, ◌≡◌, true, false, [], ◌∷◌, ◌++◌, length, ltb, ◌==◌}
use tea_elephant_memory.Clock.{Time}
use tea_elephant_memory.Domain as Common
use tea_elephant_memory.Store.{Db, ok, err, no_rows, TeaRow, exists}
use tea_elephant_memory.Adapter.{wrapped}
use tea_elephant_memory.Adapter.Teas.Deletion.{delete_record_lem}
use tea_elephant_memory.Adapter.Teas.RoundTrip.{stored, write_record-read_record}
use tea_elephant_memory.Managers.Teas.{TeaManager, answers, waits, create, delete, get, queue_size}

-- On a healthy connection and for a new identifier: with room on the queue of created teas, Create
-- answers the tea and puts it last on the queue; with none, it waits, and no event is queued.
-- Either way the tea is stored already, and Get answers it.
pub create-get :
    (id : ℕ) (now : Time) (rec : Common.TeaData) (m : TeaManager)
    → m.db.faults ≡ []
    → exists (λ (t : TeaRow). t.id == id) m.db.teas ≡ false
    → (db : Db) × (ltb (length m.created) queue_size ≡ true
        → create id now rec m ≡ (
          answers (ok (record { id = id; tea_data = stored rec })),
          record m {
            db = db;
            created = m.created ++ record { id = id; tea_data = stored rec } ∷ [];
          },
        ))
      × (ltb (length m.created) queue_size ≡ false
          → create id now rec m ≡ (waits, record m { db = db }))
      × ((get id (record m { db = db })).0
          ≡ answers (ok (record { id = id; tea_data = stored rec })))
unfolding create get
create-get id now rec m healthy new =
    let (db, wrote, reads) = write_record-read_record id now rec m.db healthy new in
    (db, λ room. rw (wrote, room), λ full. rw (wrote, full), rw reads)

-- On a healthy connection, whether the tea is stored or not: with room on the queue of deleted teas,
-- Delete answers and puts the identifier last on the queue; with none, it waits. Either way Get no
-- longer finds the tea.
pub delete-get :
    (id : ℕ) (m : TeaManager)
    → m.db.faults ≡ []
    → (db : Db) × (ltb (length m.deleted) queue_size ≡ true
        → delete id m ≡ (answers (ok tt), record m { db = db; deleted = m.deleted ++ id ∷ [] }))
      × (ltb (length m.deleted) queue_size ≡ false → delete id m ≡ (waits, record m { db = db }))
      × ((get id (record m { db = db })).0 ≡ answers (err (wrapped "tea not found" no_rows)))
unfolding delete get
delete-get id m healthy =
    let (db, deleted, missing, _, _) = delete_record_lem id m.db healthy in
    (db, λ room. rw (deleted, room), λ full. rw (deleted, full), rw missing)
