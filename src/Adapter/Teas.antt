-- ===== src/Adapter/Teas.antt =====
-- pkg/pg/db.go: teas and QR records.
pub mod RoundTrip
pub mod Deletion
use tea_elephant_memory.Prelude.{
  ℕ, ◌-◌, ◌^◌, Bool, true, false, none, some, List, [], ◌∷◌, map, ℤ, pos, negsuc, ltb_ℤ,
  if◌then◌else◌, Bytes, bytes_eq,
}
use tea_elephant_memory.Clock.{Time}
use tea_elephant_memory.Domain.{TeaData, Tea, Qr, beverage_type_string, qr_record_not_exist}
use tea_elephant_memory.Store.{
  Db, Postgres, SqlError, no_rows, Result, ok, err, Exec, Query, TeaRow, QrRow, ◌>>=◌, pure,
}
use tea_elephant_memory.Store.Records.{upsert_qr, get_qr}
use tea_elephant_memory.Store.Teas.{
  insert_tea, update_tea, get_tea, list_teas, search_teas_by_prefix,
}
use tea_elephant_memory.Store.Teas as Statements
use tea_elephant_memory.Adapter.{Error, sentinel, wrapped, wrap, tea_of_row}

pub write_record : ℕ → Time → TeaData → Exec Error Tea
write_record id now rec = do
  tea ←
      wrap "insert tea"
        (insert_tea id rec.name (beverage_type_string rec.type) (some rec.description) now)
  pure (tea_of_row tea)

-- The two messages of a failed lookup.
not_found_or : SqlError → Error
not_found_or SqlError.no_rows = wrapped "tea not found" SqlError.no_rows
not_found_or e = wrapped "get tea" e

pub read_result : Result SqlError TeaRow × Db → Result Error Tea × Db
unfolding not_found_or
read_result (ok tea, db) = (ok (tea_of_row tea), db)
read_result (err e, db) = (err (not_found_or e), db)

unfoldable pub read_record : ℕ → Exec Error Tea
unfolding read_result
read_record id db = read_result (get_tea id db)

module _ (pg : Postgres) where
  pub read_all_records : Bytes → Exec Error (List Tea)
  read_all_records search = do
    teas ←
        wrap "list teas"
          (if bytes_eq search [] then list_teas else search_teas_by_prefix pg search 2_147_483_647)
    pure (map tea_of_row teas)

pub update_record : ℕ → TeaData → Exec Error Tea
update_record id rec = do
  tea ←
      wrap "update tea"
        (update_tea id rec.name (beverage_type_string rec.type) (some rec.description))
  pure (tea_of_row tea)

pub delete_record : ℕ → Exec Error (Unit {0})
delete_record id = wrap "delete tea" (Statements.delete_tea id)

abbrev pub max_int32 : ℤ
max_int32 = pos 2_147_483_647

abbrev pub min_int32 : ℤ
min_int32 = negsuc 2_147_483_647

pub clamp_int32 : ℤ → ℤ
clamp_int32 bt =
    if ltb_ℤ max_int32 bt then max_int32 else if ltb_ℤ bt min_int32 then min_int32 else bt

qr_result : Result SqlError QrRow × Db → Result Error Qr × Db
qr_result (ok qr, db) = (
  ok (record {
    tea = qr.tea_id;
    bowling_temp = qr.boiling_temp;
    expiration_date = qr.expiration_date;
  }),
  db,
)
qr_result (err SqlError.no_rows, db) = (err (sentinel qr_record_not_exist), db)
qr_result (err e, db) = (err (wrapped "get qr" e), db)

pub read_qr : ℕ → Exec Error Qr
unfolding qr_result
read_qr id db = qr_result (get_qr id db)

module _ (pg : Postgres) where
  pub write_qr : ℕ → Time → Qr → Exec Error (Unit {0})
  unfolding clamp_int32
  write_qr id now qr =
      wrap "upsert qr" (upsert_qr pg id qr.tea (clamp_int32 qr.bowling_temp) qr.expiration_date now)
