-- ===== src/PgStore/Withdrawal.antt =====
-- `InsertWithdraw` of internal/common/store/pg/pg.go: all or nothing, and only what is covered.
use gomart.Prelude.{
  ℕ, ◌≡◌, refl, ◌∙◌, subst, true, ◌⊎◌, inl, inr, false, Option, none, some, List, [], ◌∷◌, ◌++◌,
  Result, ok, err, arith, if◌then◌else◌,
}
use gomart.Prelude.Int.{ℤ, pos}
use gomart.Store.{Decimal, is_less, Balance, Withdraw}
use gomart.Tables.{
  PgError, Sql, of_user, has_withdrawal, select_balance, insert_withdrawal, decreased,
  store_balance, balance_dec, fits_bigint, fits_numeric, balance_not_enough,
}
use gomart.Tables.Rows.{BalanceRow, WithdrawalRow, Tables, find, put_balance}
use gomart.Tables.Keys.{decreased-user_id}
use gomart.Conn.{World, Tx, tx_query, ◌>>=◌, pure, transaction}
use gomart.Conn.Laws.{Answered, tx_query-Answered, >>=-eq-ok, transaction-atomic}
use gomart.PgStore.{
  or_exists, map_result, read_balance, exec, check_balance, record_withdrawal, debit, withdraw_body,
  insert_withdraw,
}

abbrev pub held_current : Option BalanceRow → ℤ
held_current none = pos 0
held_current (some r) = r.current

abbrev pub held_withdrawn : Option BalanceRow → ℤ
held_withdrawn none = pos 0
held_withdrawn (some r) = r.withdrawn

-- What a user has to spend, and has spent: nothing where there is no row.
abbrev pub current_of : ℕ → List BalanceRow → ℤ
current_of id rows = held_current (find (of_user id) rows)

abbrev pub withdrawn_of : ℕ → List BalanceRow → ℤ
withdrawn_of id rows = held_withdrawn (find (of_user id) rows)

abbrev pub new_row : Withdraw → Tables → WithdrawalRow
new_row w t = record {
  user_id = w.user_id;
  order_id = w.order_id;
  sum = w.sum.cents;
  processed_at = t.now;
}

-- The tables after a withdrawal.
abbrev pub debited : Withdraw → Tables → Tables
debited w t = record t {
  balances =
      put_balance
        (decreased w.user_id w.sum.cents w.sum.cents t.now (find (of_user w.user_id) t.balances))
        t.balances;
  withdrawals = t.withdrawals ++ new_row w t ∷ [];
}

pub exec-Answered :
    {A : Type 0} (sql : Sql A) (tx : Tx) (a : A) (tx' : Tx)
    → exec sql tx ≡ (ok a, tx')
    → Answered sql tx a tx'
unfolding exec
exec-Answered {A} sql tx a tx' e = go (tx_query sql tx) refl e
  where
    go :
        (p : Result PgError A × Tx)
        → tx_query sql tx ≡ p
        → ◌≡◌ {A = Result PgError A × Tx} (map_result (λ x. x) or_exists p.0, p.1) (ok a, tx')
        → Answered sql tx a tx'
    go (ok b, tx₁) q h = tx_query-Answered sql tx a tx' (q ∙ h)
    go (err x, tx₁) q h = cc

read_balance_sound :
    (id : ℕ) (tx : Tx) (o : Balance) (tx' : Tx)
    → read_balance id tx ≡ (ok o, tx')
    → tx'.failed ≡ false
    → (o.accrual ≡ current_of id tx.view.balances) × (tx'.view ≡ tx.view)
unfolding read_balance tx_query select_balance
read_balance_sound id tx o tx' e s = ground arith

pub check_balance-ok :
    (o : Balance) (w : Withdraw) (tx tx' : Tx)
    → check_balance o w tx ≡ (ok tt, tx')
    → (is_less o.accrual w.sum ≡ false) × (tx ≡ tx')
unfolding check_balance
check_balance-ok o w tx tx' e = ground arith

balance_dec-ok :
    (id : ℕ) (a b : Decimal) (t t' : Tables) (row : BalanceRow)
    → balance_dec id a b t ≡ (ok row, t')
    → t' ≡ record t {
      balances =
          put_balance
            (decreased id a.cents b.cents t.now (find (of_user id) t.balances))
            t.balances;
    }
unfolding balance_dec store_balance
balance_dec-ok id a b t t' row e = ground arith

insert_withdrawal-ok :
    (id order : ℕ) (sum : Decimal) (t t' : Tables) (row : WithdrawalRow)
    → insert_withdrawal id order sum t ≡ (ok row, t')
    → (find (has_withdrawal order) t.withdrawals ≡ none)
      × (t' ≡ record t {
        withdrawals =
            t.withdrawals
            ++ record { user_id = id; order_id = order; sum = sum.cents; processed_at = t.now }
              ∷ [];
      })
unfolding insert_withdrawal
insert_withdrawal-ok id order sum t t' row e = ground arith

-- When the body succeeds, the balance covered the sum, the order number was new, and the tables are
-- those after the withdrawal.
abbrev pub Debits : Withdraw → Tables → Tables → Type 0
Debits w t t' =
    (is_less (current_of w.user_id t.balances) w.sum ≡ false)
    × (find (has_withdrawal w.order_id) t.withdrawals ≡ none)
    × (t' ≡ debited w t)

record_withdrawal-ok :
    (w : Withdraw) (tx tx' : Tx)
    → record_withdrawal w tx ≡ (ok tt, tx')
    → (find (has_withdrawal w.order_id) tx.view.withdrawals ≡ none)
      × (tx'.view ≡ record tx.view { withdrawals = tx.view.withdrawals ++ new_row w tx.view ∷ [] })
unfolding record_withdrawal
record_withdrawal-ok w tx tx' e =
    let insert = insert_withdrawal w.user_id w.order_id w.sum in
    let (row, tx₁, e₁, e₂) = >>=-eq-ok (exec insert) (λ _. pure tt) tx tt tx' e in
    let same : tx₁ ≡ tx' = cc in
    let ran = (exec-Answered insert tx row tx₁ e₁).ran in
    insert_withdrawal-ok w.user_id w.order_id w.sum tx.view tx'.view row (rw same at ran)

debit-ok :
    (w : Withdraw) (tx tx' : Tx)
    → debit w tx ≡ (ok tt, tx')
    → (tx.failed ≡ false)
      × (find (has_withdrawal w.order_id) tx.view.withdrawals ≡ none)
      × (tx'.view ≡ debited w tx.view)
unfolding debit
debit-ok w tx tx' e =
    let dec = balance_dec w.user_id w.sum w.sum in
    let (row, tx₁, e₁, e₂) = >>=-eq-ok (exec dec) (λ _. record_withdrawal w) tx tt tx' e in
    let answer = exec-Answered dec tx row tx₁ e₁ in
    let view = balance_dec-ok w.user_id w.sum w.sum tx.view tx₁.view row answer.ran in
    let (fresh, stored) = record_withdrawal-ok w tx₁ tx' e₂ in
    (answer.was_sound, rw view at fresh, rw view at stored)

withdraw_body-Debits :
    (w : Withdraw) (tx tx' : Tx) → withdraw_body w tx ≡ (ok tt, tx') → Debits w tx.view tx'.view
unfolding withdraw_body
withdraw_body-Debits w tx tx' e =
    let (o, tx₁, e₁, e₂) =
      >>=-eq-ok (read_balance w.user_id) (λ b. check_balance b w >>= λ _. debit w) tx tt tx' e in
    let (_, tx₂, e₃, e₄) = >>=-eq-ok (check_balance o w) (λ _. debit w) tx₁ tt tx' e₂ in
    let (covered, same) = check_balance-ok o w tx₁ tx₂ e₃ in
    let (sound, fresh, stored) = debit-ok w tx₁ tx' (rw (← same) at e₄) in
    let (read, view) = read_balance_sound w.user_id tx o tx₁ e₁ sound in
    (rw read at covered, rw view at fresh, rw view at stored)

-- `InsertWithdraw` stores nothing and returns an error, or the sum was covered, no withdrawal had
-- the order number, the user's row is debited and the withdrawal recorded, and nothing else changes.
pub insert_withdraw-Debits :
    (w : Withdraw) (world : World)
    → let (r, world') = insert_withdraw w world in
      ((e : PgError) × (r ≡ err e) × (world'.tables ≡ world.tables))
      ⊎ Debits w world.tables world'.tables
unfolding insert_withdraw
insert_withdraw-Debits w world = elim (transaction-atomic (withdraw_body w) world) [
  | inl kept ↦ inl kept
  | inr c ↦
      let (covered, fresh, stored) = withdraw_body-Debits w c.tx c.tx' c.ran in
      inr (
        subst (λ t. Debits w t (transaction (withdraw_body w) world).1.tables) c.same_view
          (covered, fresh, c.stored ∙ stored))
]

-- With no fault on the way, for a new order number and values that fit their columns before and
-- after, `InsertWithdraw` stores the withdrawal and returns no error if the balance covers the sum,
-- and otherwise returns `ErrBalanceNotEnough` and changes nothing.
pub insert_withdraw-served :
    (w : Withdraw) (t : Tables)
    → fits_bigint w.user_id ≡ true
    → fits_bigint w.order_id ≡ true
    → fits_numeric w.sum.cents ≡ true
    → (let row =
          decreased w.user_id w.sum.cents w.sum.cents t.now (find (of_user w.user_id) t.balances) in
        (fits_numeric row.current ≡ true) × (fits_numeric row.withdrawn ≡ true))
    → find (has_withdrawal w.order_id) t.withdrawals ≡ none
    → insert_withdraw w (record { tables = t; net = [] }) ≡ (
        if is_less (current_of w.user_id t.balances) w.sum
        then (err balance_not_enough, record { tables = t; net = [] })
        else (ok tt, record { tables = debited w t; net = [] }))
unfolding insert_withdraw transaction withdraw_body read_balance check_balance debit
    record_withdrawal exec tx_query select_balance balance_dec store_balance insert_withdrawal
insert_withdraw-served w t fu fo fs fr fresh = ground (
  arith,
  decreased-user_id w.user_id w.sum.cents w.sum.cents t.now (find (of_user w.user_id) t.balances),
)
