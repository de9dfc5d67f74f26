-- ===== src/Adapter/Users.antt =====
-- pkg/pg/db.go: users, devices and notifications. The text of a device's identifier, a method of
-- package uuid, is an argument.
pub mod Accounts
use tea_elephant_memory.Prelude.{ℕ, List, map, Bytes}
use tea_elephant_memory.Clock.{Time}
use tea_elephant_memory.Domain.{User, Notification}
use tea_elephant_memory.Store.{Db, Result, ok, err, Exec, UserRow, NotificationRow, ◌>>=◌, pure}
use tea_elephant_memory.Store.Devices.{
  insert_device, update_device_token, list_device_tokens, list_notifications,
}
use tea_elephant_memory.Store.Users.{upsert_user, list_users}
use tea_elephant_memory.Adapter.{Error, wrap}

pub get_or_create_user : ℕ → Time → Bytes → Exec Error ℕ
get_or_create_user id now unique = do
  user ← wrap "upsert user" (upsert_user id unique now)
  pure user.id

unfoldable pub get_users : Exec Error (List User)
get_users = do
  users ← wrap "list users" list_users
  pure (map (λ (u : UserRow). record { id = u.id; apple_id = u.apple_id }) users)

pub add_device_for_user : (ℕ → Bytes) → Time → ℕ → ℕ → Exec Error (Unit {0})
add_device_for_user id_string now user_id device_id =
    wrap "insert device" (insert_device device_id user_id (id_string device_id) now)

-- No matching row is logged and is no error.
pub create_or_update_device_token : ℕ → Bytes → Exec Error (Unit {0})
create_or_update_device_token device_id device_token = do
  affected ← wrap "update device token" (update_device_token device_id device_token)
  pure tt

pub notifications : ℕ → Exec Error (List Notification)
notifications user_id = do
  rows ← wrap "list notifications" (list_notifications user_id)
  pure (map (λ (n : NotificationRow). record { user_id = user_id; type = n.type }) rows)

pub map_user_id_to_device_id : ℕ → Exec Error (List Bytes)
map_user_id_to_device_id user_id = wrap "list device tokens" (list_device_tokens user_id)
