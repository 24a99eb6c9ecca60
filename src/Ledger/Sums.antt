-- ===== src/Ledger/Sums.antt =====
-- The sums under each change of the tables.
use gomart.Prelude.{ℕ, ◌≡◌, some, List, [], ◌∷◌, ◌++◌, ◌==◌, if◌then◌else◌, arith}
use gomart.Prelude.Int.{pos, ◌+ℤ◌, int_laws}
use gomart.Tables.{has_order}
use gomart.Tables.Rows.{OrderRow, BalanceRow, WithdrawalRow, find, put_order, put_balance}
use gomart.Tables.Keys.{find-put_balance}
use gomart.PgStore.Withdrawal.{current_of, withdrawn_of}
use gomart.Ledger.{total_accrual, total_sum}

pub current_of-put_balance :
    (id : ℕ) (row : BalanceRow) (rows : List BalanceRow)
    → current_of id (put_balance row rows)
      ≡ (if row.user_id == id then row.current else current_of id rows)
current_of-put_balance id row rows = ground (arith, find-put_balance id row rows)

pub withdrawn_of-put_balance :
    (id : ℕ) (row : BalanceRow) (rows : List BalanceRow)
    → withdrawn_of id (put_balance row rows)
      ≡ (if row.user_id == id then row.withdrawn else withdrawn_of id rows)
withdrawn_of-put_balance id row rows = ground (arith, find-put_balance id row rows)

pub total_sum-snoc :
    (id : ℕ) (rows : List WithdrawalRow) (row : WithdrawalRow)
    → total_sum id (rows ++ row ∷ [])
      ≡ total_sum id rows +ℤ (if row.user_id == id then row.sum else pos 0)
unfolding total_sum
total_sum-snoc id [] row = omega int_laws
total_sum-snoc id (r ∷ rs) row = rw (total_sum-snoc id rs row) (omega int_laws)

pub total_accrual-snoc :
    (id : ℕ) (rows : List OrderRow) (row : OrderRow)
    → total_accrual id (rows ++ row ∷ [])
      ≡ total_accrual id rows +ℤ (if row.user_id == id then row.accrual else pos 0)
unfolding total_accrual
total_accrual-snoc id [] row = omega int_laws
total_accrual-snoc id (r ∷ rs) row = rw (total_accrual-snoc id rs row) (omega int_laws)

-- A row that keeps its order's owner changes the owner's sum by the difference of the accruals.
pub total_accrual-put_order :
    (id : ℕ) (row old : OrderRow) (rows : List OrderRow)
    → find (has_order row.order_id) rows ≡ some old
    → row.user_id ≡ old.user_id
    → total_accrual id (put_order row rows) +ℤ (if old.user_id == id then old.accrual else pos 0)
      ≡ total_accrual id rows +ℤ (if old.user_id == id then row.accrual else pos 0)
unfolding total_accrual
total_accrual-put_order id row old [] e u = cc
total_accrual-put_order id row old (r ∷ rs) e u =
    grind (int_laws, total_accrual-put_order id row old rs)
