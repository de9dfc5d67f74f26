-- ===== src/Adapter/Teas/RoundTrip.antt =====
-- What is written to the storage is read back: teas, and QR records.
use tea_elephant_memory.Prelude.{
  ℕ, zero, suc, negsuc, List, ◌≡◌, refl, inl, inr, true, false, Bool-cases, some, [], ◌∷◌, ◌++◌, ℤ,
  pos, ◌≤ℤ◌, ◌==◌, ==_refl, if◌then◌else◌, arith, bytes_eq, leb_ℤ, ltb_ℤ, ◌⊎◌, ◌&&◌,
}
use tea_elephant_memory.Clock.{Time}
use tea_elephant_memory.Domain.{
  BeverageType, TeaData, Qr, other_beverage_type, string_to_beverage_type, beverage_type_string,
}
use tea_elephant_memory.Store.{
  Db, Postgres, foreign_key_violation, ok, err, TeaRow, QrRow, exists, update,
}
use tea_elephant_memory.Store.Records.{upsert_qr, get_qr}
use tea_elephant_memory.Store.Rows.{statement_healthy, find-append_new, find-update, exists→find}
use tea_elephant_memory.Store.Teas.{insert_tea, get_tea, tea_type_check}
use tea_elephant_memory.Adapter.{wrapped, tea_of_row}
use tea_elephant_memory.Adapter.Teas.{write_record, read_record, write_qr, read_qr, clamp_int32}

-- The type that the storage gives back: an unknown one becomes other.
abbrev pub known_type : BeverageType → BeverageType
known_type b = if leb_ℤ (pos 0) b && leb_ℤ b (pos 3) then b else other_beverage_type

abbrev pub stored : TeaData → TeaData
stored rec = record rec { type = known_type rec.type }

pub beverage_type_round_trip :
    (b : BeverageType) → string_to_beverage_type (beverage_type_string b) ≡ known_type b
unfolding string_to_beverage_type beverage_type_string bytes_eq
beverage_type_round_trip (pos zero) = refl
beverage_type_round_trip (pos (suc zero)) = refl
beverage_type_round_trip (pos (suc (suc zero))) = refl
beverage_type_round_trip (pos (suc (suc (suc zero)))) = refl
beverage_type_round_trip (pos (suc (suc (suc (suc n))))) = ground arith
beverage_type_round_trip (negsuc n) = ground arith

pub beverage_type_check : (b : BeverageType) → tea_type_check (beverage_type_string b) ≡ true
unfolding tea_type_check beverage_type_string bytes_eq
beverage_type_check (pos zero) = refl
beverage_type_check (pos (suc zero)) = refl
beverage_type_check (pos (suc (suc zero))) = refl
beverage_type_check (pos (suc (suc (suc zero)))) = refl
beverage_type_check (pos (suc (suc (suc (suc n))))) = ground arith
beverage_type_check (negsuc n) = ground arith

-- On a healthy connection a tea written under a new identifier is returned and read back with its
-- name and description, and with its type if that is one of the four known ones, else as other.
pub write_record-read_record :
    (id : ℕ) (now : Time) (rec : TeaData) (db : Db)
    → db.faults ≡ []
    → exists (λ (t : TeaRow). t.id == id) db.teas ≡ false
    → (db' : Db) × (write_record id now rec db
        ≡ (ok (record { id = id; tea_data = stored rec }), db'))
      × (read_record id db' ≡ (ok (record { id = id; tea_data = stored rec }), db'))
unfolding write_record read_record insert_tea get_tea tea_of_row
write_record-read_record id now rec db healthy new =
    let row : TeaRow = record {
      id = id;
      name = rec.name;
      type = beverage_type_string rec.type;
      description = some rec.description;
      created_at = now;
    } in
    let db' : Db = record db { teas = db.teas ++ row ∷ [] } in
    (
      db',
      rw (
        statement_healthy _ db healthy,
        beverage_type_check rec.type,
        new,
        beverage_type_round_trip rec.type,
      ),
      rw (
        statement_healthy _ db' healthy,
        find-append_new _ db.teas row new (==_refl id),
        beverage_type_round_trip rec.type,
      ),
    )

clamp_int32-eq_self :
    (t : ℤ) → negsuc 2_147_483_647 ≤ℤ t → t ≤ℤ pos 2_147_483_647 → clamp_int32 t ≡ t
unfolding clamp_int32
clamp_int32-eq_self t lo hi = ground arith

-- c is the 32-bit integer nearest to t: t itself from -2147483648 to 2147483647, else the end of that range
-- that t is beyond.
abbrev pub IsClamped : ℤ → ℤ → Type 0
IsClamped t c =
    (negsuc 2_147_483_647 ≤ℤ t × t ≤ℤ pos 2_147_483_647 × (c ≡ t))
    ⊎ ((pos 2_147_483_648 ≤ℤ t × (c ≡ pos 2_147_483_647))
        ⊎ (t ≤ℤ negsuc 2_147_483_648 × (c ≡ negsuc 2_147_483_647)))

pub clamp_int32-IsClamped : (t : ℤ) → IsClamped t (clamp_int32 t)
unfolding clamp_int32
clamp_int32-IsClamped t = elim (Bool-cases (ltb_ℤ (pos 2_147_483_647) t)) [
  | inl over ↦ inr (inl (ground arith, rw over refl))
  | inr within ↦ elim (Bool-cases (ltb_ℤ t (negsuc 2_147_483_647))) [
    | inl under ↦ inr (inr (ground arith, rw (within, under) refl))
    | inr fits ↦ inl (ground arith, ground arith, rw (within, fits) refl)
  ]
]

module _ (pg : Postgres) where
  -- Only the rows of QR records change.
  pub write_qr_rows :
      (id : ℕ) (now : Time) (qr : Qr) (db : Db)
      → db.faults ≡ []
      → exists (λ (t : TeaRow). t.id == qr.tea) db.teas ≡ true
      → (rows : List QrRow) × (write_qr pg id now qr db ≡ (ok tt, record db { qr_records = rows }))
        × (read_qr id (record db { qr_records = rows }) ≡ (
          ok (record qr {
            bowling_temp = clamp_int32 qr.bowling_temp;
            expiration_date = pg.timestamptz qr.expiration_date;
          }),
          record db { qr_records = rows },
        ))
  unfolding write_qr read_qr upsert_qr get_qr
  write_qr_rows id now qr db healthy known =
      elim (Bool-cases (exists (λ (q : QrRow). q.id == id) db.qr_records)) [
        | inl old ↦
            let written : QrRow → QrRow = λ q. record q {
              tea_id = qr.tea;
              boiling_temp = clamp_int32 qr.bowling_temp;
              expiration_date = pg.timestamptz qr.expiration_date;
            } in
            let rows = update (λ (q : QrRow). q.id == id) written db.qr_records in
            let db' : Db = record db { qr_records = rows } in
            let (q, found) = exists→find _ db.qr_records old in
            (
              rows,
              rw (statement_healthy _ db healthy, known, old),
              rw (
                statement_healthy _ db' healthy,
                find-update _ written db.qr_records q (λ y e. e) found,
              ),
            )
        | inr new ↦
            let row : QrRow = record {
              id = id;
              tea_id = qr.tea;
              boiling_temp = clamp_int32 qr.bowling_temp;
              expiration_date = pg.timestamptz qr.expiration_date;
              created_at = now;
            } in
            let rows = db.qr_records ++ row ∷ [] in
            let db' : Db = record db { qr_records = rows } in
            (
              rows,
              rw (statement_healthy _ db healthy, known, new),
              rw (
                statement_healthy _ db' healthy,
                find-append_new _ db.qr_records row new (==_refl id),
              ),
            )
      ]

  -- On a healthy connection and for a known tea, writing a QR record, new or not, succeeds, and
  -- reading it returns the tea, the 32-bit integer nearest to the temperature, and the instant that the
  -- column keeps; for an unknown tea the write fails and changes nothing.
  pub write_qr-read_qr :
      (id : ℕ) (now : Time) (qr : Qr) (db : Db)
      → db.faults ≡ []
      → (exists (λ (t : TeaRow). t.id == qr.tea) db.teas ≡ true
          → (db' : Db) × (temp : ℤ) × IsClamped qr.bowling_temp temp
            × (write_qr pg id now qr db ≡ (ok tt, db'))
            × (read_qr id db' ≡ (
              ok (record qr {
                bowling_temp = temp;
                expiration_date = pg.timestamptz qr.expiration_date;
              }),
              db',
            )))
        × (exists (λ (t : TeaRow). t.id == qr.tea) db.teas ≡ false
            → write_qr pg id now qr db ≡ (err (wrapped "upsert qr" foreign_key_violation), db))
  unfolding write_qr read_qr upsert_qr get_qr
  write_qr-read_qr id now qr db healthy = (
    λ known.
        let (rows, written, read) = write_qr_rows id now qr db healthy known in
        (
          record db { qr_records = rows },
          clamp_int32 qr.bowling_temp,
          clamp_int32-IsClamped qr.bowling_temp,
          written,
          read,
        ),
    λ unknown. rw (statement_healthy _ db healthy, unknown),
  )
