-- ===== src/PgStore.antt =====
-- The methods of `PgStore`, internal/common/store/pg/pg.go.
pub mod Withdrawal
pub mod Statements
pub mod Start
use gomart.Prelude.{
  ℕ, suc, zero, ◌+◌, ◌-◌, String, Bool, true, false, ◌&&◌, not, Option, none, some, List, [], ◌∷◌,
  ◌++◌, map, Bytes, length, take, drop, ltb, ◌==◌, if◌then◌else◌, Result, ok, err,
}
use gomart.Prelude.Int.{pos}
use gomart.Store.{Decimal, of_cents, zero_decimal, is_less, User, Order, Balance, Withdraw}
use gomart.Tables.{
  PgError, unique_violation, no_rows, already_exists, row_not_found, balance_not_enough, Sql,
  status_text, insert_user, select_user, query_r_order, select_one_order, select_orders,
  select_orders_processing, select_balance, select_withdrawals, insert_withdrawal, balance_dec,
  balance_inc, update_order,
}
use gomart.Tables.Rows.{UserRow, OrderRow, BalanceRow, WithdrawalRow, Tables}
use gomart.Conn.{
  World, Call, query, scan, Tx, InTx, tx_query, ◌>>=◌, ◌>>◌, raise, pure, transaction,
}

-- `if ProbePGDublicate(err) { return ErrAlreadyExists }; return err`
abbrev pub or_exists : PgError → PgError
or_exists unique_violation = already_exists
or_exists e = e

abbrev pub map_result :
    {A B : Type 0} → (A → B) → (PgError → PgError) → Result PgError A → Result PgError B
map_result f g (ok a) = ok (f a)
map_result f g (err e) = err (g e)

abbrev pub scanned_order : OrderRow → Order
scanned_order r = record {
  order_id = r.order_id;
  user_id = r.user_id;
  status = status_text r.status;
  accrual = of_cents r.accrual;
  time_u = r.uploaded_at;
  time_c = r.changed_at;
}

abbrev pub scanned_balance : BalanceRow → Balance
scanned_balance r = record {
  user_id = r.user_id;
  accrual = r.current;
  withdrawn = r.withdrawn;
  time_c = r.changed_at;
}

abbrev pub scanned_withdrawal : WithdrawalRow → Withdraw
scanned_withdrawal r = record {
  user_id = r.user_id;
  order_id = r.order_id;
  sum = of_cents r.sum;
  time_c = r.processed_at;
}

abbrev pub scanned_user : UserRow → User
scanned_user r = record { name = r.name; password = r.password; id = r.user_id }

abbrev same : PgError → PgError
same e = e

unfoldable pub add_user : User → Call User
add_user u w =
    let (r, w') = query (insert_user u.name u.password) w in
    (map_result scanned_user or_exists r, w')

unfoldable pub get_user : User → Call User
get_user u w =
    let (r, w') = query (select_user u.name) w in (map_result scanned_user same (scan r), w')

unfoldable pub insert_order : Order → Call (Unit {0})
insert_order o w =
    let (r, w') = query (query_r_order o.order_id o.user_id o.status o.accrual) w in
    (map_result (λ _. tt) or_exists r, w')

unfoldable pub get_one_order : ℕ → Call Order
get_one_order id w =
    let (r, w') = query (select_one_order id) w in (map_result scanned_order same (scan r), w')

-- `errors.Is(err, sql.ErrNoRows)`
abbrev pub or_not_found : PgError → PgError
or_not_found no_rows = row_not_found
or_not_found e = e

unfoldable pub get_balance : ℕ → Call Balance
get_balance id w =
    let (r, w') = query (select_balance id) w in
    (map_result scanned_balance or_not_found (scan r), w')

unfoldable pub get_withdrawals : ℕ → Call (List Withdraw)
get_withdrawals id w =
    let (r, w') = query (select_withdrawals id) w in
    (map_result (map scanned_withdrawal) same r, w')

unfoldable pub get_orders : ℕ → Call (List Order)
get_orders id w =
    let (r, w') = query (select_orders id) w in (map_result (map scanned_order) same r, w')

unfoldable pub get_orders_for_processing : Call (List Order)
get_orders_for_processing w =
    let (r, w') = query select_orders_processing w in (map_result (map scanned_order) same r, w')

-- `_ = row.Scan(…)`: on any error the balance is the zero value.
abbrev pub scanned_or_zero : Result PgError (Option BalanceRow) → Balance
scanned_or_zero (ok (some r)) = scanned_balance r
scanned_or_zero _ = record { user_id = 0; accrual = pos 0; withdrawn = pos 0; time_c = 0 }

unfoldable pub read_balance : ℕ → InTx Balance
read_balance id tx = let (r, tx') = tx_query (select_balance id) tx in (ok (scanned_or_zero r), tx')

-- A statement of the transaction whose violation of a key is reported as `ErrAlreadyExists`.
unfoldable pub exec : {A : Type 0} → Sql A → InTx A
exec sql tx = let (r, tx') = tx_query sql tx in (map_result (λ a. a) or_exists r, tx')

unfoldable pub check_balance : Balance → Withdraw → InTx (Unit {0})
check_balance o w = if is_less o.accrual w.sum then raise balance_not_enough else pure tt

-- The third statement of `InsertWithdraw`.
unfoldable pub record_withdrawal : Withdraw → InTx (Unit {0})
record_withdrawal w = exec (insert_withdrawal w.user_id w.order_id w.sum) >>= λ _. pure tt

-- The second statement and what follows it.
unfoldable pub debit : Withdraw → InTx (Unit {0})
debit w = exec (balance_dec w.user_id w.sum w.sum) >>= λ _. record_withdrawal w

unfoldable pub withdraw_body : Withdraw → InTx (Unit {0})
withdraw_body w = read_balance w.user_id >>= λ o. check_balance o w >>= λ _. debit w

unfoldable pub insert_withdraw : Withdraw → Call (Unit {0})
insert_withdraw w = transaction (withdraw_body w)
