-- ===== src/Ledger.antt =====
-- What the tables of internal/common/store/pg/pg.go promise together: every point that a user has or
-- has spent was credited for an order, and every point spent is recorded.
pub mod Sums
pub mod Withdrawals
pub mod Credits
pub mod Keys
pub mod Sound
pub mod Accounts
use gomart.Prelude.{ℕ, ◌≡◌, List, [], ◌∷◌, All, Bool, ◌==◌, if◌then◌else◌}
use gomart.Prelude.Int.{ℤ, pos, ◌+ℤ◌, ◌≤ℤ◌}
use gomart.Tables.Rows.{OrderRow, WithdrawalRow, Tables}
use gomart.PgStore.Withdrawal.{current_of, withdrawn_of}

-- The points of a user's orders.
unfoldable pub total_accrual : ℕ → List OrderRow → ℤ
total_accrual id [] = pos 0
total_accrual id (r ∷ rs) = (if r.user_id == id then r.accrual else pos 0) +ℤ total_accrual id rs

-- The points of a user's withdrawals.
unfoldable pub total_sum : ℕ → List WithdrawalRow → ℤ
total_sum id [] = pos 0
total_sum id (r ∷ rs) = (if r.user_id == id then r.sum else pos 0) +ℤ total_sum id rs

pub record IsBalanced (t : Tables) : Type 0 where
  pub spent : (id : ℕ) → withdrawn_of id t.balances ≡ total_sum id t.withdrawals
  pub earned :
      (id : ℕ) → current_of id t.balances +ℤ withdrawn_of id t.balances ≡ total_accrual id t.orders
  pub covered : (id : ℕ) → pos 0 ≤ℤ current_of id t.balances
