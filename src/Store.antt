-- ===== src/Store.antt =====
-- pkg/pgstore/queries.go: the tables of db/schema.sql and the statements over them. Each query is one
-- statement; a statement may fail because the connection does, as the list `faults` foretells.
pub mod Rows
pub mod Users
pub mod Teas
pub mod Tags
pub mod Records
pub mod Devices
pub mod Consumptions
use tea_elephant_memory.Prelude.{
  ℕ, Bool, true, false, Option, none, some, List, [], ◌∷◌, ℤ, Bytes, if◌then◌else◌, ◌||◌,
}
use tea_elephant_memory.Clock.{Time}

pub data SqlError : Type 0 where
  no_rows : SqlError
  unique_violation : SqlError
  foreign_key_violation : SqlError
  check_violation : SqlError
  connection_failed : SqlError

pub data Result (E A : Type 0) : Type 0 where
  ok : A → Result E A
  err : E → Result E A

pub record UserRow : Type 0 where
  pub id : ℕ
  pub apple_id : Bytes
  pub created_at : Time

-- A description is NULL or a text.
pub record TeaRow : Type 0 where
  pub id : ℕ
  pub name : Bytes
  pub type : Bytes
  pub description : Option Bytes
  pub created_at : Time

pub record TagCategoryRow : Type 0 where
  pub id : ℕ
  pub name : Bytes

pub record TagRow : Type 0 where
  pub id : ℕ
  pub name : Bytes
  pub color : Bytes
  pub category_id : ℕ

pub record TeaTagRow : Type 0 where
  pub tea_id : ℕ
  pub tag_id : ℕ

pub record QrRow : Type 0 where
  pub id : ℕ
  pub tea_id : ℕ
  pub boiling_temp : ℤ
  pub expiration_date : Time
  pub created_at : Time

pub record CollectionRow : Type 0 where
  pub id : ℕ
  pub user_id : ℕ
  pub name : Bytes
  pub created_at : Time

pub record ItemRow : Type 0 where
  pub collection_id : ℕ
  pub qr_id : ℕ

pub record DeviceRow : Type 0 where
  pub id : ℕ
  pub user_id : ℕ
  pub token : Bytes
  pub created_at : Time

pub record NotificationRow : Type 0 where
  pub id : ℕ
  pub user_id : ℕ
  pub type : ℤ
  pub created_at : Time

pub record ConsumptionRow : Type 0 where
  pub user_id : ℕ
  pub ts : Time
  pub tea_id : ℕ

-- The tables, each in the order of insertion, and the failures that the coming statements meet: a
-- statement takes the head of the list, and no failure is left when the list is empty.
pub record Db : Type 0 where
  pub users : List UserRow
  pub teas : List TeaRow
  pub tag_categories : List TagCategoryRow
  pub tags : List TagRow
  pub tea_tags : List TeaTagRow
  pub qr_records : List QrRow
  pub collections : List CollectionRow
  pub items : List ItemRow
  pub devices : List DeviceRow
  pub notifications : List NotificationRow
  pub consumptions : List ConsumptionRow
  pub faults : List Bool

-- What of PostgreSQL and its driver is not in the program: lower(), LIKE (the pattern first), the
-- collation by which ORDER BY sorts texts, and the instant that a timestamptz column keeps.
pub record Postgres : Type 0 where
  pub lower : Bytes → Bytes
  pub like : Bytes → Bytes → Bool
  pub collates_before : Bytes → Bytes → Bool
  pub timestamptz : Time → Time

-- An action on the database that ends in a value or an error.
abbrev pub Exec : Type 0 → Type 0 → Type 0
Exec E A = Db → Result E A × Db

abbrev pub Query : Type 0 → Type 0
Query = Exec SqlError

module _ {E A B : Type 0} where
  infixl 5 ◌>>=◌
  abbrev pub bind_result : Result E A × Db → (A → Exec E B) → Result E B × Db
  bind_result (ok a, db) f = f a db
  bind_result (err e, db) f = (err e, db)

  abbrev pub ◌>>=◌ : Exec E A → (A → Exec E B) → Exec E B
  ◌>>=◌ m f db = bind_result (m db) f

infixl 5 ◌>>◌
abbrev pub ◌>>◌ : {E B : Type 0} → Exec E (Unit {0}) → Exec E B → Exec E B
m >> k = m >>= λ _. k

abbrev pub pure : {E A : Type 0} → A → Exec E A
pure a db = (ok a, db)

abbrev pub with_faults : {A : Type 0} → List Bool → Query A → Query A
with_faults [] query db = query db
with_faults (false ∷ rest) query db = query (record db { faults = rest })
with_faults (true ∷ rest) query db = (err connection_failed, record db { faults = rest })

-- One statement: it fails if the connection does, and then leaves the tables alone.
unfoldable pub statement : {A : Type 0} → Query A → Query A
statement query db = with_faults db.faults query db

-- EXISTS (SELECT ... WHERE p)
unfoldable pub exists {ℓ} : {A : Type ℓ} → (A → Bool) → List A → Bool
exists p [] = false
exists p (x ∷ xs) = p x || exists p xs

-- The first row that satisfies the condition.
unfoldable pub find {ℓ} : {A : Type ℓ} → (A → Bool) → List A → Option A
find p [] = none
find p (x ∷ xs) = if p x then some x else find p xs

-- UPDATE ... SET f WHERE p
unfoldable pub update {ℓ} : {A : Type ℓ} → (A → Bool) → (A → A) → List A → List A
update p f [] = []
update p f (x ∷ xs) = (if p x then f x else x) ∷ update p f xs

-- A query that returns the row or fails with sql.ErrNoRows.
abbrev pub one_row : {A : Type 0} → Option A → Query A
one_row none db = (err no_rows, db)
one_row (some a) db = (ok a, db)
