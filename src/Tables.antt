-- ===== src/Tables.antt =====
-- The tables of internal/gophermart/app/migrations and the SQL statements of
-- internal/common/store/pg/pg.go, each as a function on the tables.
pub mod Rows
pub mod Keys
pub mod Each
use gomart.Prelude.{
  ℕ, ◌+◌, ◌-◌, length, take, drop, ◌^◌, ◌<◌, String, Bool, true, false, ◌&&◌, ◌||◌, not, Option,
  none, some, List, [], ◌∷◌, ◌++◌, Bytes, bytes_eq, ltb, leb, ◌==◌, if◌then◌else◌, str_eq, Result,
  ok, err,
}
use gomart.Prelude.Int.{ℤ, pos, pos_part, neg_part, ◌+ℤ◌, ◌-ℤ◌}
use gomart.Store.{Decimal, of_cents, Order, Withdraw}
use Rows.{
  OrderStatus, new, processing, registered, invalid, processed, UserRow, OrderRow, BalanceRow,
  WithdrawalRow, Tables, find, filter, put_order, put_balance, latest_first,
}

-- What the database answers, and the errors that internal/common/store/pg/pg.go declares.
pub data PgError : Type 0 where
  connection too_long unique_violation invalid_enum out_of_range aborted no_rows : PgError
  already_exists row_not_found balance_not_enough : PgError

abbrev pub Sql : Type 0 → Type 0
Sql A = Tables → Result PgError A × Tables

-- `order_status_type`
abbrev pub status_text : OrderStatus → String
status_text new = "NEW"
status_text processing = "PROCESSING"
status_text registered = "REGISTERED"
status_text invalid = "INVALID"
status_text processed = "PROCESSED"

unfoldable pub parse_status : String → Option OrderStatus
parse_status s =
    if str_eq s "NEW"
    then some new
    else if str_eq s "PROCESSING"
    then some processing
    else if str_eq s "REGISTERED"
    then some registered
    else if str_eq s "INVALID"
    then some invalid
    else if str_eq s "PROCESSED"
    then some processed
    else none

-- `bigint`
abbrev pub fits_bigint : ℕ → Bool
fits_bigint n = ltb n (2 ^ 63)

-- `decimal(19,2)`, in hundredths
abbrev pub fits_numeric : ℤ → Bool
fits_numeric c = ltb (pos_part c) (10 ^ 19) && ltb (neg_part c) (10 ^ 19)

-- `varchar(128)` counts characters: the bytes of UTF-8 that do not continue one.
abbrev pub characters : Bytes → ℕ
characters [] = 0
characters (b ∷ bs) = (if leb 128 b && ltb b 192 then 0 else 1) + characters bs

abbrev pub has_name : Bytes → UserRow → Bool
has_name name row = bytes_eq row.name name

abbrev pub has_order : ℕ → OrderRow → Bool
has_order id row = row.order_id == id

abbrev pub of_user : ℕ → BalanceRow → Bool
of_user id row = row.user_id == id

abbrev pub has_withdrawal : ℕ → WithdrawalRow → Bool
has_withdrawal id row = row.order_id == id

abbrev all_spaces : Bytes → Bool
all_spaces [] = true
all_spaces (b ∷ bs) = (b == 32) && all_spaces bs

-- The bytes of the first 128 characters, where those behind are spaces, and whether they are.
unfoldable pub stored_name : Bytes → Bytes
stored_name name = take (length name - (characters name - 128)) name

unfoldable pub fits_varchar : Bytes → Bool
fits_varchar name = all_spaces (drop (length name - (characters name - 128)) name)

-- `queryDefault`; spaces beyond the length of the column are cut off, of which a password, in
-- hexadecimal, has none; a value of the sequence is used up also where the name is taken.
unfoldable pub insert_user : Bytes → Bytes → Sql UserRow
insert_user name password t =
    if not (fits_varchar name) || ltb 128 (characters password)
    then (err too_long, t)
    else (let row : UserRow = record {
      name = stored_name name;
      password = password;
      user_id = t.next_user;
    } in
        let taken = record t { next_user = t.next_user + 1 } in
        elim (find (has_name (stored_name name)) t.users) [
          | some _ ↦ (err unique_violation, taken)
          | none ↦ (ok row, record taken { users = t.users ++ row ∷ [] })
        ])

-- `selectDefault`
unfoldable pub select_user : Bytes → Sql (Option UserRow)
select_user name t = (ok (find (has_name name) t.users), t)

-- `queryROrderDefault`
unfoldable pub query_r_order : ℕ → ℕ → String → Decimal → Sql OrderRow
query_r_order order_id user_id status accrual t =
    if not (fits_bigint order_id && fits_bigint user_id && fits_numeric accrual.cents)
    then (err out_of_range, t)
    else elim (parse_status status) [
      | none ↦ (err invalid_enum, t)
      | some s ↦ elim (find (has_order order_id) t.orders) [
        | some _ ↦ (err unique_violation, t)
        | none ↦
            let row : OrderRow = record {
              order_id = order_id;
              user_id = user_id;
              status = s;
              accrual = accrual.cents;
              uploaded_at = t.now;
              changed_at = t.now;
            } in
            (ok row, record t { orders = t.orders ++ row ∷ [] })
      ]
    ]

-- `selectOneOrderDefault`
unfoldable pub select_one_order : ℕ → Sql (Option OrderRow)
select_one_order order_id t =
    if fits_bigint order_id
    then (ok (find (has_order order_id) t.orders), t)
    else (err out_of_range, t)

abbrev pub owned_by : ℕ → OrderRow → Bool
owned_by id row = row.user_id == id

-- `selectOrdersDefault`
unfoldable pub select_orders : ℕ → Sql (List OrderRow)
select_orders user_id t =
    if fits_bigint user_id
    then (ok (latest_first (filter (owned_by user_id) t.orders)), t)
    else (err out_of_range, t)

abbrev pub is_open : OrderStatus → Bool
is_open new = true
is_open registered = true
is_open processing = true
is_open invalid = false
is_open processed = false

abbrev pub has_open_status : OrderRow → Bool
has_open_status row = is_open row.status

-- `selectOrdersProcessingDefault`
unfoldable pub select_orders_processing : Sql (List OrderRow)
select_orders_processing t = (ok (latest_first (filter has_open_status t.orders)), t)

-- `selectBalanceDefault`
unfoldable pub select_balance : ℕ → Sql (Option BalanceRow)
select_balance user_id t =
    if fits_bigint user_id
    then (ok (find (of_user user_id) t.balances), t)
    else (err out_of_range, t)

abbrev pub drawn_by : ℕ → WithdrawalRow → Bool
drawn_by id row = row.user_id == id

-- `selectWithdrawalsDefault`
unfoldable pub select_withdrawals : ℕ → Sql (List WithdrawalRow)
select_withdrawals user_id t =
    if fits_bigint user_id
    then (ok (filter (drawn_by user_id) t.withdrawals), t)
    else (err out_of_range, t)

-- `queryInsertWithdrawDefault`
unfoldable pub insert_withdrawal : ℕ → ℕ → Decimal → Sql WithdrawalRow
insert_withdrawal user_id order_id sum t =
    if not (fits_bigint user_id && fits_bigint order_id && fits_numeric sum.cents)
    then (err out_of_range, t)
    else elim (find (has_withdrawal order_id) t.withdrawals) [
      | some _ ↦ (err unique_violation, t)
      | none ↦
          let row : WithdrawalRow = record {
            user_id = user_id;
            order_id = order_id;
            sum = sum.cents;
            processed_at = t.now;
          } in
          (ok row, record t { withdrawals = t.withdrawals ++ row ∷ [] })
    ]

-- The row of the user, as `ON CONFLICT (user_id)` leaves it for the values `excluded`.
unfoldable pub decreased : ℕ → ℤ → ℤ → ℕ → Option BalanceRow → BalanceRow
decreased user_id current withdrawn now none = record {
  user_id = user_id;
  current = current;
  withdrawn = withdrawn;
  changed_at = now;
}
decreased user_id current withdrawn now (some row) = record {
  user_id = user_id;
  current = row.current -ℤ current;
  withdrawn = row.withdrawn +ℤ withdrawn;
  changed_at = now;
}

unfoldable pub increased : ℕ → ℤ → ℤ → ℕ → Option BalanceRow → BalanceRow
increased user_id current withdrawn now none = record {
  user_id = user_id;
  current = current;
  withdrawn = withdrawn;
  changed_at = now;
}
increased user_id current withdrawn now (some row) = record {
  user_id = user_id;
  current = row.current +ℤ current;
  withdrawn = row.withdrawn;
  changed_at = now;
}

unfoldable pub store_balance : BalanceRow → Sql BalanceRow
store_balance row t =
    if fits_bigint row.user_id && fits_numeric row.current && fits_numeric row.withdrawn
    then (ok row, record t { balances = put_balance row t.balances })
    else (err out_of_range, t)

-- `queryBalanceDecDefault`
unfoldable pub balance_dec : ℕ → Decimal → Decimal → Sql BalanceRow
balance_dec user_id current withdrawn t =
    if fits_numeric current.cents && fits_numeric withdrawn.cents
    then store_balance
        (decreased user_id current.cents withdrawn.cents t.now (find (of_user user_id) t.balances))
        t
    else (err out_of_range, t)

-- `queryBalanceIncDefault`
unfoldable pub balance_inc : ℕ → Decimal → Decimal → Sql BalanceRow
balance_inc user_id current withdrawn t =
    if fits_numeric current.cents && fits_numeric withdrawn.cents
    then store_balance
        (increased user_id current.cents withdrawn.cents t.now (find (of_user user_id) t.balances))
        t
    else (err out_of_range, t)

-- `queryCOrderDefault`; `none` where no order has the number.
unfoldable pub update_order : ℕ → String → Decimal → Sql (Option OrderRow)
update_order order_id status accrual t =
    if not (fits_bigint order_id && fits_numeric accrual.cents)
    then (err out_of_range, t)
    else elim (parse_status status) [
      | none ↦ (err invalid_enum, t)
      | some s ↦ elim (find (has_order order_id) t.orders) [
        | none ↦ (ok none, t)
        | some row ↦
            let row' = record row { status = s; accrual = accrual.cents; changed_at = t.now } in
            (ok (some row'), record t { orders = put_order row' t.orders })
      ]
    ]
