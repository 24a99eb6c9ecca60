-- ===== src/Migrations/Origin.antt =====
-- The server from its start: what `migrate` leaves is sound, and so is all that follows.
use gomart.Prelude.{ℕ, ◌≡◌, refl, some, List, [], Bytes, Bool, ok, arith}
use gomart.Prelude.Int.{pos, ◌+ℤ◌, ◌≤ℤ◌}
use gomart.Password.{Hmac}
use gomart.Tables.Rows.{UserRow, OrderRow, BalanceRow, WithdrawalRow}
use gomart.Ledger.{total_accrual, total_sum}
use gomart.Ledger.Sound.{IsSound}
use gomart.Service.{Withdraw}
use gomart.Handlers.Pages.{Codec}
use gomart.Pool.{OrderAccrual}
use gomart.Accrual.Answers.{IsHonest}
use gomart.Concurrent.{Db, Reach, quiet}
use gomart.Concurrent.Funds.{Alone}
use gomart.Concurrent.Alone.{Reach-IsSound-Alone}
use gomart.Migrations.{Database, Goose, migrate, tables_of}
use gomart.Migrations.Erasure.{set_up, emptied, migrate-set_up}

set_up-IsSound : (now : ℕ) → IsSound (tables_of now (set_up 1 [] [] [] []))
unfolding total_accrual total_sum ◌+ℤ◌
set_up-IsSound now = record {
  books = record { spent = λ id. refl; earned = λ id. refl; covered = λ id. omega arith };
  keyed = tt;
  unpaid = tt;
}

-- A database with no tables yet, or one that an earlier start has set up, whatever rows it has by now.
pub data IsStartable : Database → Type 0 where
  bare : (n : ℕ) → IsStartable (emptied n)
  used :
      (n : ℕ) (us : List UserRow) (os : List OrderRow) (bs : List BalanceRow)
      (ws : List WithdrawalRow)
      → IsStartable (set_up n us os bs ws)

migrate-IsStartable :
    (goose : Goose) (db : Database) → IsStartable db → migrate goose db ≡ ok (set_up 1 [] [] [] [])
migrate-IsStartable goose _ (bare n) = (migrate-set_up goose n [] [] [] []).1
migrate-IsStartable goose _ (used n us os bs ws) = (migrate-set_up goose n us os bs ws).0

-- `migrate` succeeds on a database with no tables yet and on one that an earlier start has set up, and
-- however the statements of the transactions interleave after it and wherever they roll back, if no
-- withdrawal begins while one of the same user runs, then each user's balance is not negative and is
-- the points of the user's orders less those of the recorded withdrawals, order numbers differ, and open
-- orders have no points. The clients must ask for no negative sums, and the accrual system must answer
-- with points that are not negative and are 0 for an order that it leaves open.
pub migrate-Reach :
    (codec : Codec) (hmac : Hmac) (key_sig : Bytes) (decode : Bytes → OrderAccrual × Bool)
    (goose : Goose) (db : Database) (now : ℕ) (later : Db)
    → ((body : Bytes) (x : Withdraw) → codec.decode_withdraw body ≡ some x → pos 0 ≤ℤ x.sum.cents)
    → IsHonest decode
    → IsStartable db
    → Reach codec hmac key_sig decode Alone (quiet (tables_of now (set_up 1 [] [] [] []))) later
    → (migrate goose db ≡ ok (set_up 1 [] [] [] [])) × IsSound later.tables
migrate-Reach codec hmac key_sig decode goose db now later positive honest startable run = (
  migrate-IsStartable goose db startable,
  Reach-IsSound-Alone codec hmac key_sig decode positive honest
      (tables_of now (set_up 1 [] [] [] [])) later (set_up-IsSound now) run,
)
