-- ===== src/Adapter/Users/Accounts.antt =====
-- Users by their Apple identifiers, and the devices that they sign in on.
use tea_elephant_memory.Prelude.{
  ℕ, ◌≡◌, inl, inr, Bool, true, false, Option-cases, some, List, [], ◌∷◌, ◌++◌, map, keep, sort,
  ◌==◌, ==_refl, Bytes, bytes_eq, bytes_eq_refl,
}
use tea_elephant_memory.Clock.{Time, after}
use tea_elephant_memory.Store.{Db, ok, UserRow, DeviceRow, exists, find, ◌>>◌}
use tea_elephant_memory.Store.Devices.{insert_device, list_device_tokens}
use tea_elephant_memory.Store.Rows.{
  statement_healthy, find-append_none, find-exists, find-exists_keep, exists-sort, exists-map,
}
use tea_elephant_memory.Store.Users.{upsert_user}
use tea_elephant_memory.Adapter.Users.{
  get_or_create_user, add_device_for_user, map_user_id_to_device_id,
}

-- On a healthy connection and for an identifier that no user has, a sign-in answers a user; every later
-- sign-in with the same Apple identifier, whatever identifier it draws, answers the same user and
-- changes nothing.
pub get_or_create_user_twice :
    (id later_id : ℕ) (now later : Time) (unique : Bytes) (db : Db)
    → db.faults ≡ []
    → exists (λ (u : UserRow). u.id == id) db.users ≡ false
    → (user : ℕ) × (db' : Db) × (get_or_create_user id now unique db ≡ (ok user, db'))
      × (get_or_create_user later_id later unique db' ≡ (ok user, db'))
unfolding get_or_create_user upsert_user
get_or_create_user_twice id later_id now later unique db healthy new =
    elim (Option-cases (find (λ (u : UserRow). bytes_eq u.apple_id unique) db.users)) [
      | inr (u, known) ↦ (
        u.id,
        db,
        rw (statement_healthy _ db healthy, known),
        rw (statement_healthy _ db healthy, known),
      )
      | inl unknown ↦
          let user : UserRow = record { id = id; apple_id = unique; created_at = now } in
          let db' : Db = record db { users = db.users ++ user ∷ [] } in
          (
            id,
            db',
            rw (statement_healthy _ db healthy, unknown, new),
            rw (
              statement_healthy _ db' healthy,
              find-append_none _ db.users user unknown (bytes_eq_refl unique),
            ),
          )
    ]

newest : DeviceRow → DeviceRow → Bool
newest d e = after d.created_at e.created_at

device_known :
    (id_string : ℕ → Bytes) (now : Time) (user device : ℕ) (db : Db)
    → db.faults ≡ []
    → exists (λ (d : DeviceRow). d.id == device) db.devices ≡ true
    → add_device_for_user id_string now user device db ≡ (ok tt, db)
unfolding add_device_for_user insert_device
device_known id_string now user device db healthy known = rw (statement_healthy _ db healthy, known)

-- On a healthy connection, where a stored device signs in for any user, the call succeeds but the device
-- stays with the user that it had: the tokens of the user who signs in are as before, and those of
-- the device's old user still hold the device's token.
pub known_device_stays :
    (id_string : ℕ → Bytes) (now : Time) (user device : ℕ) (row : DeviceRow) (db : Db)
    → db.faults ≡ []
    → find (λ (d : DeviceRow). d.id == device) db.devices ≡ some row
    → (tokens : List Bytes) × ((add_device_for_user id_string now user device
            >> map_user_id_to_device_id user)
          db
        ≡ map_user_id_to_device_id user db)
      × ((add_device_for_user id_string now user device >> map_user_id_to_device_id row.user_id) db
          ≡ (ok tokens, db))
      × (exists (λ t. bytes_eq t row.token) tokens ≡ true)
unfolding map_user_id_to_device_id list_device_tokens newest
known_device_stays id_string now user device row db healthy known =
    let stays =
      device_known id_string now user device db healthy (find-exists _ db.devices row known).0 in
    (
      map (λ (d : DeviceRow). d.token)
          (sort newest (keep (λ (d : DeviceRow). d.user_id == row.user_id) db.devices)),
      rw stays,
      rw (stays, statement_healthy _ db healthy),
      rw
          (
            exists-map (λ t. bytes_eq t row.token) (λ (d : DeviceRow). d.token)
                (sort newest (keep (λ (d : DeviceRow). d.user_id == row.user_id) db.devices)),
            exists-sort (λ (d : DeviceRow). bytes_eq d.token row.token) newest
                (keep (λ (d : DeviceRow). d.user_id == row.user_id) db.devices),
          )
          (find-exists_keep (λ (d : DeviceRow). d.id == device) _ _ db.devices row known
            (==_refl row.user_id) (bytes_eq_refl row.token)),
    )
