-- ===== src/Graphql/Mutations/Labels.antt =====
-- WriteToQR: what anyone may write.
use tea_elephant_memory.Prelude.{ℕ, ℤ, ◌≡◌, refl, some, [], ◌==◌}
use tea_elephant_memory.Clock.{Time}
use tea_elephant_memory.Store.{Db, Postgres, ok, TeaRow, find}
use tea_elephant_memory.Store.Rows.{statement_healthy, find-exists}
use tea_elephant_memory.Store.Teas.{get_tea}
use tea_elephant_memory.Adapter.{tea_of_row}
use tea_elephant_memory.Adapter.Teas.{read_record, clamp_int32}
use tea_elephant_memory.Adapter.Teas.RoundTrip.{IsClamped, clamp_int32-IsClamped, write_qr_rows}
use tea_elephant_memory.Models.{QrRecordData, from_common_tea}
use tea_elephant_memory.Managers.Teas as Teas
use tea_elephant_memory.Managers.Records.{set_qr, get_qr_data}
use tea_elephant_memory.Auth.Requests.{Principals}
use tea_elephant_memory.Graphql.Mutations.{World, responds, write_to_qr}

module _ (pg : Postgres) (ctx : Principals) where
  -- On a healthy connection, whoever calls, signed in or not: writing data of a stored tea to any QR
  -- identifier, of a record that is there or not, succeeds and answers the tea as stored and the data
  -- as sent. Reading the record then answers the tea, but the 32-bit integer nearest to the temperature
  -- and the expiration as the column keeps it.
  pub write_to_qr_lem :
      (id : ℕ) (now : Time) (data_ : QrRecordData) (tea : TeaRow) (w : World)
      → w.db.faults ≡ []
      → find (λ (t : TeaRow). t.id == data_.tea) w.db.teas ≡ some tea
      → (w' : World) × (temp : ℤ) × IsClamped data_.bowling_temp temp
        × (write_to_qr ctx pg id now data_ w ≡ (
          responds (
              ok (record {
                id = id;
                tea = from_common_tea (tea_of_row tea);
                bowling_temp = data_.bowling_temp;
                expiration_date = data_.expiration_date;
              })),
          w',
        ))
        × (get_qr_data id w'.db ≡ (
          ok (record {
            tea = data_.tea;
            bowling_temp = temp;
            expiration_date = pg.timestamptz data_.expiration_date;
          }),
          w'.db,
        ))
  unfolding write_to_qr set_qr get_qr_data Teas.get read_record get_tea
  write_to_qr_lem id now data_ tea w healthy known =
      let (rows, written, read) =
        write_qr_rows pg id now
          (record {
            tea = data_.tea;
            bowling_temp = data_.bowling_temp;
            expiration_date = data_.expiration_date;
          })
          w.db healthy (find-exists _ w.db.teas tea known).0 in
      let db' : Db = record w.db { qr_records = rows } in
      (
        record w { db = db'; teas = record w.teas { db = db' } },
        clamp_int32 data_.bowling_temp,
        clamp_int32-IsClamped data_.bowling_temp,
        rw (written, statement_healthy _ db' healthy, known) refl,
        rw read refl,
      )
