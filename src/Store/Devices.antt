-- ===== src/Store/Devices.antt =====
-- pkg/pgstore/queries.go: the statements on devices and notifications.
use tea_elephant_memory.Prelude.{
  ℕ, List, [], ◌∷◌, ◌++◌, map, ◌==◌, ◌&&◌, not, if◌then◌else◌, Bytes, bytes_eq, keep, sort,
}
use tea_elephant_memory.Clock.{Time, after}
use tea_elephant_memory.Store.{
  UserRow, DeviceRow, NotificationRow, unique_violation, foreign_key_violation, ok, err, Query,
  statement, exists, update,
}

-- ON CONFLICT (id) DO NOTHING: a device that is known already stays as it is.
unfoldable pub insert_device : ℕ → ℕ → Bytes → Time → Query (Unit {0})
insert_device id user_id token now = statement λ db.
    let device : DeviceRow = record {
      id = id;
      user_id = user_id;
      token = token;
      created_at = now;
    } in
    if exists (λ (d : DeviceRow). d.id == id) db.devices
    then (ok tt, db)
    else if exists (λ (d : DeviceRow). bytes_eq d.token token) db.devices
    then (err unique_violation, db)
    else if exists (λ (u : UserRow). u.id == user_id) db.users
    then (ok tt, record db { devices = db.devices ++ device ∷ [] })
    else (err foreign_key_violation, db)

-- The number of rows updated, one or none.
pub update_device_token : ℕ → Bytes → Query ℕ
update_device_token id token = statement λ db.
    if not (exists (λ (d : DeviceRow). d.id == id) db.devices)
    then (ok 0, db)
    else if exists (λ (d : DeviceRow). not (d.id == id) && bytes_eq d.token token) db.devices
    then (err unique_violation, db)
    else (
      ok 1,
      record db {
        devices =
            update (λ (d : DeviceRow). d.id == id) (λ d. record d { token = token }) db.devices;
      },
    )

-- ORDER BY created_at DESC
unfoldable pub list_device_tokens : ℕ → Query (List Bytes)
list_device_tokens user_id = statement λ db. (
  ok (
      map (λ (d : DeviceRow). d.token)
        (sort (λ d e. after d.created_at e.created_at)
          (keep (λ (d : DeviceRow). d.user_id == user_id) db.devices))),
  db,
)

-- ORDER BY created_at DESC
pub list_notifications : ℕ → Query (List NotificationRow)
list_notifications user_id = statement λ db. (
  ok (
      sort (λ n m. after n.created_at m.created_at)
        (keep (λ (n : NotificationRow). n.user_id == user_id) db.notifications)),
  db,
)
