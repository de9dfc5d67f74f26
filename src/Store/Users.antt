-- ===== src/Store/Users.antt =====
-- pkg/pgstore/queries.go: the statements on users.
use tea_elephant_memory.Prelude.{
  ℕ, none, some, List, [], ◌∷◌, ◌++◌, ◌==◌, if◌then◌else◌, Bytes, bytes_eq, sort,
}
use tea_elephant_memory.Clock.{Time, after}
use tea_elephant_memory.Store.{UserRow, unique_violation, ok, err, Query, statement, exists, find}

-- INSERT ... ON CONFLICT (apple_id) DO UPDATE: the row of the Apple identifier, old or new.
unfoldable pub upsert_user : ℕ → Bytes → Time → Query UserRow
upsert_user id apple_id now = statement λ db.
    elim (find (λ (u : UserRow). bytes_eq u.apple_id apple_id) db.users) [
      | some user ↦ (ok user, db)
      | none ↦
          let user : UserRow = record { id = id; apple_id = apple_id; created_at = now } in
          if exists (λ (u : UserRow). u.id == id) db.users
          then (err unique_violation, db)
          else (ok user, record db { users = db.users ++ user ∷ [] })
    ]

-- ORDER BY created_at DESC
unfoldable pub list_users : Query (List UserRow)
list_users = statement λ db. (ok (sort (λ u v. after u.created_at v.created_at) db.users), db)
