-- ===== src/Adapter/Tests.antt =====
-- Instances of the theorems on the storage at a small database, and test runs.
use tea_elephant_memory.Prelude.{
  ℕ, ℤ, ◌≡◌, ◌≢◌, refl, Bool, true, false, ◌&&◌, none, some, List, [], ◌∷◌, map, pos, ◌==◌,
  if◌then◌else◌, Bytes, bytes_eq, bytes_lt, bytes_lt_asymm, bytes_lt_trans_not, keep, Perm,
  IsSorted,
}
use tea_elephant_memory.Domain.{TeaData, Qr}
use tea_elephant_memory.Store.{
  Db, Postgres, ok, err, no_rows, foreign_key_violation, connection_failed, TeaRow, TagRow, QrRow,
  CollectionRow, DeviceRow, exists, find, ◌>>◌,
}
use tea_elephant_memory.Adapter.{wrapped, tag_of_row}
use tea_elephant_memory.Adapter.Tags.{delete_tag_category, list_tags}
use tea_elephant_memory.Adapter.Tags.Listing.{selects, names_before, list_tags_lem}
use tea_elephant_memory.Adapter.Tags.Removal.{
  in_category, without_tags, without_category, delete_tag_category_lem,
  delete_tag_category_interrupted,
}
use tea_elephant_memory.Adapter.Teas.{update_record, read_record, delete_record, write_qr, read_qr}
use tea_elephant_memory.Adapter.Teas.Deletion.{
  update_record-read_record, Unreferenced, delete_record_lem,
}
use tea_elephant_memory.Adapter.Teas.RoundTrip.{stored, IsClamped, write_qr-read_qr}
use tea_elephant_memory.Adapter.Users.{add_device_for_user, map_user_id_to_device_id}
use tea_elephant_memory.Adapter.Users.Accounts.{known_device_stays}

like_prefix : Bytes → Bytes → Bool
like_prefix [] [] = true
like_prefix [] (d ∷ s) = false
like_prefix (c ∷ p) s =
    if c == b'%' then true else elim s [ [] ↦ false | d ∷ s' ↦ c == d && like_prefix p s' ]

-- A server of one case, where the only wild card ends the pattern.
abbrev postgres : Postgres
postgres = record {
  lower = λ s. s;
  like = like_prefix;
  collates_before = bytes_lt;
  timestamptz = λ t. t;
}

abbrev assam : TeaRow
assam = record {
  id = 1;
  name = b'A' ∷ [];
  type = b't' ∷ b'e' ∷ b'a' ∷ [];
  description = some [];
  created_at = pos 10;
}

abbrev mint : TeaRow
mint = record {
  id = 2;
  name = b'M' ∷ [];
  type = b'h' ∷ b'e' ∷ b'r' ∷ b'b' ∷ [];
  description = none;
  created_at = pos 20;
}

abbrev strong : TagRow
strong = record { id = 11; name = b's' ∷ []; color = b'r' ∷ []; category_id = 7 }

abbrev sleepy : TagRow
sleepy = record { id = 12; name = b'n' ∷ []; color = b'b' ∷ []; category_id = 8 }

abbrev tin : QrRow
tin = record {
  id = 21;
  tea_id = 1;
  boiling_temp = pos 95;
  expiration_date = pos 900;
  created_at = pos 30;
}

abbrev phone : DeviceRow
phone = record { id = 41; user_id = 51; token = b't' ∷ []; created_at = pos 5 }

abbrev shelf : CollectionRow
shelf = record { id = 31; user_id = 51; name = b'c' ∷ []; created_at = pos 40 }

abbrev database : Db
database = record {
  users =
      record { id = 51; apple_id = b'x' ∷ []; created_at = pos 1 }
      ∷ record { id = 52; apple_id = b'y' ∷ []; created_at = pos 2 }
      ∷ [];
  teas = assam ∷ mint ∷ [];
  tag_categories = record { id = 7; name = b'k' ∷ [] } ∷ record { id = 8; name = b'l' ∷ [] } ∷ [];
  tags = strong ∷ sleepy ∷ [];
  tea_tags = record { tea_id = 1; tag_id = 11 } ∷ record { tea_id = 2; tag_id = 12 } ∷ [];
  qr_records = tin ∷ [];
  collections = shelf ∷ [];
  items = [];
  devices = phone ∷ [];
  notifications = [];
  consumptions = [];
  faults = [];
}

abbrev oolong : TeaData
oolong = record { name = b'O' ∷ []; type = pos 9; description = b'd' ∷ [] }

abbrev sticker : Qr
sticker = record { tea = 2; bowling_temp = pos 9_999_999_999; expiration_date = pos 700 }

write_qr-read_qr_example :
    (exists (λ (t : TeaRow). t.id == 2) database.teas ≡ true
      → (db' : Db) × (temp : ℤ) × IsClamped (pos 9_999_999_999) temp
        × (write_qr postgres 22 (pos 60) sticker database ≡ (ok tt, db'))
        × (read_qr 22 db'
            ≡ (ok (record { tea = 2; bowling_temp = temp; expiration_date = pos 700 }), db')))
    × (exists (λ (t : TeaRow). t.id == 2) database.teas ≡ false
        → write_qr postgres 22 (pos 60) sticker database
          ≡ (err (wrapped "upsert qr" foreign_key_violation), database))
write_qr-read_qr_example = write_qr-read_qr postgres 22 (pos 60) sticker database refl

delete_record_lem_example :
    (db' : Db) × (delete_record 1 database ≡ (ok tt, db'))
    × (read_record 1 db' ≡ (err (wrapped "tea not found" no_rows), db'))
    × ((other : ℕ) → other ≢ 1 → (read_record other db').0 ≡ (read_record other database).0)
    × Unreferenced 1 db'
delete_record_lem_example = delete_record_lem 1 database refl

delete_tag_category_lem_example :
    (removed : List ℕ) × Perm removed
      (map (λ (t : TagRow). t.id) (keep (in_category 7) database.tags))
    × (delete_tag_category postgres 7 database
        ≡ (ok removed, without_category 7 (without_tags 7 database)))
delete_tag_category_lem_example = delete_tag_category_lem postgres 7 database refl

delete_tag_category_interrupted_example :
    delete_tag_category postgres 7 (record database { faults = false ∷ false ∷ true ∷ [] }) ≡ (
      err (wrapped "delete category" connection_failed),
      record (without_tags 7 database) { faults = [] },
    )
delete_tag_category_interrupted_example = delete_tag_category_interrupted postgres 7 database []

abbrev id_text : ℕ → Bytes
id_text n = n ∷ []

known_device_stays_example :
    (tokens : List Bytes) × ((add_device_for_user id_text (pos 90) 52 41
          >> map_user_id_to_device_id 52)
        database
      ≡ map_user_id_to_device_id 52 database)
    × ((add_device_for_user id_text (pos 90) 52 41 >> map_user_id_to_device_id 51) database
        ≡ (ok tokens, database))
    × (exists (λ t. bytes_eq t (b't' ∷ [])) tokens ≡ true)
unfolding find
known_device_stays_example = known_device_stays id_text (pos 90) 52 41 phone database refl refl

abbrev filled : Db
filled = record database { items = record { collection_id = 31; qr_id = 21 } ∷ [] }

list_tags_lem_example :
    (rows : List TagRow) × (list_tags postgres (some (b's' ∷ [])) none database
      ≡ (ok (map tag_of_row rows), database))
    × Perm rows (keep (selects postgres (some (b's' ∷ [])) none) database.tags)
    × IsSorted (names_before postgres) rows
list_tags_lem_example =
    list_tags_lem postgres (some (b's' ∷ [])) none database (bytes_lt_asymm, bytes_lt_trans_not)
      refl

update_record-read_record_example :
    ((t : TeaRow)
      → find (λ (t : TeaRow). t.id == 2) database.teas ≡ some t
      → (db' : Db) × (update_record 2 oolong database
          ≡ (ok (record { id = 2; tea_data = stored oolong }), db'))
        × (read_record 2 db' ≡ (ok (record { id = 2; tea_data = stored oolong }), db')))
    × (find (λ (t : TeaRow). t.id == 2) database.teas ≡ none
        → update_record 2 oolong database ≡ (err (wrapped "update tea" no_rows), database))
update_record-read_record_example = update_record-read_record 2 oolong database refl
