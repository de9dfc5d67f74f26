-- ===== src/Managers/Records.antt =====
-- internal/managers/qr/manager.go and internal/managers/notification/manager.go.
use tea_elephant_memory.Prelude.{ℕ, Bytes}
use tea_elephant_memory.Clock.{Time}
use tea_elephant_memory.Store.{Postgres, Exec, ◌>>=◌, pure}
use tea_elephant_memory.Adapter.{Error}
use tea_elephant_memory.Adapter.Teas.{write_qr, read_qr}
use tea_elephant_memory.Adapter.Users.{add_device_for_user, create_or_update_device_token}
use tea_elephant_memory.Models.{QrRecordData}

unfoldable pub set_qr : Postgres → ℕ → Time → QrRecordData → Exec Error (Unit {0})
set_qr pg id now qr =
    write_qr pg id now (record {
      tea = qr.tea;
      bowling_temp = qr.bowling_temp;
      expiration_date = qr.expiration_date;
    })

unfoldable pub get_qr_data : ℕ → Exec Error QrRecordData
get_qr_data id = do
  qr ← read_qr id
  pure (record {
    tea = qr.tea;
    bowling_temp = qr.bowling_temp;
    expiration_date = qr.expiration_date;
  })

pub bind_device : (ℕ → Bytes) → Time → ℕ → ℕ → Exec Error (Unit {0})
bind_device id_string now user_id device_id = add_device_for_user id_string now user_id device_id

pub register_device_token : ℕ → Bytes → Exec Error (Unit {0})
register_device_token device_id device_token = create_or_update_device_token device_id device_token
