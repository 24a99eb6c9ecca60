-- ===== src/PgStore/Statements.antt =====
-- The statements of a call of `InsertWithdraw` that commits, internal/common/store/pg/pg.go.
use gomart.Prelude.{◌≡◌, false, [], ◌∷◌, ◌++◌, ok, arith, ℕ}
use gomart.Store.{Withdraw, Balance, is_less}
use gomart.Tables.{select_balance, balance_dec, insert_withdrawal, store_balance}
use gomart.Tables.Rows.{BalanceRow, WithdrawalRow, Tables, put_balance}
use gomart.Conn.{Tx, ◌>>=◌, pure, tx_query}
use gomart.Conn.Laws.{>>=-eq-ok}
use gomart.PgStore.{
  exec, read_balance, check_balance, record_withdrawal, debit, withdraw_body, scanned_or_zero,
}
use gomart.PgStore.Withdrawal.{exec-Answered, check_balance-ok}

-- What each of them returns.
pub record Statements (w : Withdraw) (t t' : Tables) : Type 0 where
  pub row : BalanceRow
  pub drawn : WithdrawalRow
  pub between : Tables
  pub covered : is_less (scanned_or_zero (select_balance w.user_id t).0).accrual w.sum ≡ false
  pub decreases : balance_dec w.user_id w.sum w.sum t ≡ (ok row, between)
  pub inserts : insert_withdrawal w.user_id w.order_id w.sum between ≡ (ok drawn, t')

read_balance-scanned :
    (id : ℕ) (tx : Tx) (o : Balance) (tx' : Tx)
    → read_balance id tx ≡ (ok o, tx')
    → tx'.failed ≡ false
    → (o ≡ scanned_or_zero (select_balance id tx.view).0) × (tx'.view ≡ tx.view)
unfolding read_balance tx_query select_balance
read_balance-scanned id tx o tx' e s = ground arith

record Debit (w : Withdraw) (tx tx' : Tx) : Type 0 where
  sound : tx.failed ≡ false
  row : BalanceRow
  drawn : WithdrawalRow
  between : Tables
  decreases : balance_dec w.user_id w.sum w.sum tx.view ≡ (ok row, between)
  inserts : insert_withdrawal w.user_id w.order_id w.sum between ≡ (ok drawn, tx'.view)

debit-Debit : (w : Withdraw) (tx tx' : Tx) → debit w tx ≡ (ok tt, tx') → Debit w tx tx'
unfolding debit record_withdrawal
debit-Debit w tx tx' e =
    let dec = balance_dec w.user_id w.sum w.sum in
    let insert = insert_withdrawal w.user_id w.order_id w.sum in
    let (row, tx₁, e₁, e₂) = >>=-eq-ok (exec dec) (λ _. record_withdrawal w) tx tt tx' e in
    let (drawn, tx₂, e₃, e₄) = >>=-eq-ok (exec insert) (λ _. pure tt) tx₁ tt tx' e₂ in
    let same : tx₂ ≡ tx' = cc in
    let answer = exec-Answered dec tx row tx₁ e₁ in
    let ran = (exec-Answered insert tx₁ drawn tx₂ e₃).ran in
    record {
      sound = answer.was_sound;
      row = row;
      drawn = drawn;
      between = tx₁.view;
      decreases = answer.ran;
      inserts = rw same at ran;
    }

pub withdraw_body-Statements :
    (w : Withdraw) (tx tx' : Tx) → withdraw_body w tx ≡ (ok tt, tx') → Statements w tx.view tx'.view
unfolding withdraw_body
withdraw_body-Statements w tx tx' e =
    let (o, tx₁, e₁, e₂) =
      >>=-eq-ok (read_balance w.user_id) (λ b. check_balance b w >>= λ _. debit w) tx tt tx' e in
    let (_, tx₂, e₃, e₄) = >>=-eq-ok (check_balance o w) (λ _. debit w) tx₁ tt tx' e₂ in
    let (covered, same) = check_balance-ok o w tx₁ tx₂ e₃ in
    let d = debit-Debit w tx₂ tx' e₄ in
    let sound : tx₁.failed ≡ false = rw same d.sound in
    let (read, view) = read_balance-scanned w.user_id tx o tx₁ e₁ sound in
    let seen : tx₂.view ≡ tx.view = rw (← same) view in
    record {
      row = d.row;
      drawn = d.drawn;
      between = d.between;
      covered = rw read at covered;
      decreases = rw (← seen) d.decreases;
      inserts = d.inserts;
    }

-- What the statements leave behind.
pub balance_dec-stores :
    (w : Withdraw) (t t' : Tables) (row : BalanceRow)
    → balance_dec w.user_id w.sum w.sum t ≡ (ok row, t')
    → t' ≡ record t { balances = put_balance row t.balances }
unfolding balance_dec store_balance
balance_dec-stores w t t' row e = ground arith

pub insert_withdrawal-stores :
    (w : Withdraw) (t t' : Tables) (drawn : WithdrawalRow)
    → insert_withdrawal w.user_id w.order_id w.sum t ≡ (ok drawn, t')
    → t' ≡ record t { withdrawals = t.withdrawals ++ drawn ∷ [] }
unfolding insert_withdrawal
insert_withdrawal-stores w t t' drawn e = ground arith
