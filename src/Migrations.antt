-- ===== src/Migrations.antt =====
-- The start of the database: `migrate` of internal/gophermart/app/migrations.go and the files under
-- internal/gophermart/app/migrations.
pub mod Erasure
pub mod Origin
use mathlib.Core.List.{reverse}
use gomart.Prelude.{
  ℕ, zero, suc, ◌+◌, ◌-◌, ◌≡◌, Bool, true, false, Option, none, some, List, [], ◌∷◌, take, drop,
  length, if◌then◌else◌, Result, ok, err,
}
use gomart.Tables.Rows.{UserRow, OrderRow, BalanceRow, WithdrawalRow, Tables}

-- The tables that there are, with their rows; `next_user` is the sequence behind `BIGSERIAL`,
-- `status_type` whether `order_status_type` exists, and `version` how many of the migrations goose has
-- recorded as applied.
pub record Database : Type 0 where
  pub users : Option (List UserRow)
  pub next_user : ℕ
  pub status_type : Bool
  pub orders : Option (List OrderRow)
  pub balances : Option (List BalanceRow)
  pub withdrawals : Option (List WithdrawalRow)
  pub version : ℕ

pub data SqlError : Type 0 where
  already_exists does_not_exist : SqlError

abbrev pub Statement : Type 0
Statement = Database → Result SqlError Database

pub record Migration : Type 0 where
  pub up : Statement
  pub down : Statement

unfoldable pub create_users : Statement
create_users db = elim db.users [
  | some _ ↦ ok db
  | none ↦ ok (record db { users = some []; next_user = 1 })
]

unfoldable pub drop_users : Statement
drop_users db = elim db.users [
  | some _ ↦ ok (record db { users = none })
  | none ↦ err does_not_exist
]

-- `CREATE TYPE` and `CREATE TABLE IF NOT EXISTS`
unfoldable pub create_orders : Statement
create_orders db = if db.status_type then err already_exists else elim db.orders [
  | some _ ↦ ok (record db { status_type = true })
  | none ↦ ok (record db { status_type = true; orders = some [] })
]

-- `DROP TABLE` and `DROP TYPE`
unfoldable pub drop_orders : Statement
drop_orders db = elim db.orders [
  | none ↦ err does_not_exist
  | some _ ↦
      if db.status_type
      then ok (record db { orders = none; status_type = false })
      else err does_not_exist
]

unfoldable pub create_balances : Statement
create_balances db = elim db.balances [
  | some _ ↦ ok db
  | none ↦ ok (record db { balances = some [] })
]

unfoldable pub drop_balances : Statement
drop_balances db = elim db.balances [
  | some _ ↦ ok (record db { balances = none })
  | none ↦ err does_not_exist
]

unfoldable pub create_withdrawals : Statement
create_withdrawals db = elim db.withdrawals [
  | some _ ↦ ok db
  | none ↦ ok (record db { withdrawals = some [] })
]

unfoldable pub drop_withdrawals : Statement
drop_withdrawals db = elim db.withdrawals [
  | some _ ↦ ok (record db { withdrawals = none })
  | none ↦ err does_not_exist
]

-- The files in the order of their numbers.
unfoldable pub embed_migrations : List Migration
embed_migrations =
    record { up = create_users; down = drop_users }
    ∷ record { up = create_orders; down = drop_orders }
    ∷ record { up = create_balances; down = drop_balances }
    ∷ record { up = create_withdrawals; down = drop_withdrawals }
    ∷ []

abbrev pub then_do : Result SqlError Database → Statement → Result SqlError Database
then_do (ok db) f = f db
then_do (err e) f = err e

abbrev pub recorded : (ℕ → ℕ) → Result SqlError Database → Result SqlError Database
recorded f (ok db) = ok (record db { version = f db.version })
recorded f (err e) = err e

-- Each of the given migrations in turn, up to the first error.
unfoldable pub all_up : List Migration → Statement
all_up [] db = ok db
all_up (m ∷ ms) db = then_do (recorded suc (m.up db)) (all_up ms)

unfoldable pub all_down : List Migration → Statement
all_down [] db = ok db
all_down (m ∷ ms) db = then_do (recorded (λ v. v - 1) (m.down db)) (all_down ms)

-- `github.com/pressly/goose`, as far as `migrate` uses it: `down_to_zero` is `DownTo` with version 0,
-- which takes the applied migrations back, the last first; `up` is `Up`, which applies the others.
pub record Goose : Type 0 where
  pub down_to_zero : List Migration → Statement
  pub up : List Migration → Statement
  pub down_to_zero_lem :
      (ms : List Migration) (db : Database)
      → down_to_zero ms db ≡ all_down (reverse (take db.version ms)) db
  pub up_lem : (ms : List Migration) (db : Database) → up ms db ≡ all_up (drop db.version ms) db

-- `migrate`, once the connection and the dialect are set.
unfoldable pub migrate : Goose → Statement
migrate goose db = then_do (goose.down_to_zero embed_migrations db) (goose.up embed_migrations)

abbrev pub rows_of {ℓ} : {A : Type ℓ} → Option (List A) → List A
rows_of none = []
rows_of (some rows) = rows

-- The tables as the server finds them.
abbrev pub tables_of : ℕ → Database → Tables
tables_of now db = record {
  users = rows_of db.users;
  orders = rows_of db.orders;
  balances = rows_of db.balances;
  withdrawals = rows_of db.withdrawals;
  next_user = db.next_user;
  now = now;
}
