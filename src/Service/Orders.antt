-- ===== src/Service/Orders.antt =====
-- Orders and withdrawals by number: `RegisterOrder`, `PostWithdraw` and the tables.
use gomart.Prelude.{
  ℕ, ◌≡◌, refl, sym, subst, ◌⊎◌, inl, inr, not, ◌&&◌, Bool-cases, Option-cases, none, some, List,
  [], ◌∷◌, ◌++◌, Bytes, ◌==◌, if◌then◌else◌, Result, ok, err, arith,
}
use gomart.Prelude.Int.{pos, ◌≤ℤ◌, int_laws}
use gomart.Store
use gomart.Store.{zero_decimal, of_cents}
use gomart.Luhn.{valid_luhn}
use gomart.Uint.{parse_uint}
use gomart.Tables.{
  has_order, fits_bigint, out_of_range, parse_status, query_r_order, select_one_order,
}
use gomart.Tables.Rows.{OrderRow, new, Tables, find}
use gomart.Conn.{World, query}
use gomart.PgStore.{insert_withdraw, insert_order, get_one_order}
use gomart.Ledger.{IsBalanced, total_accrual}
use gomart.Ledger.Sums.{total_accrual-snoc}
use gomart.Ledger.Withdrawals.{insert_withdraw-IsBalanced}
use gomart.Service.{
  ServiceError, bad_value, order_already_loaded, order_already_loaded_other_user, store,
  register_order, Withdraw, post_withdraw,
}

abbrev pub new_row : ℕ → ℕ → Tables → OrderRow
new_row order_id user_id t = record {
  order_id = order_id;
  user_id = user_id;
  status = new;
  accrual = pos 0;
  uploaded_at = t.now;
  changed_at = t.now;
}

total_accrual-new :
    (id : ℕ) (rows : List OrderRow) (order_id user_id now : ℕ)
    → total_accrual id (
        rows
        ++ record {
          order_id = order_id;
          user_id = user_id;
          status = new;
          accrual = pos 0;
          uploaded_at = now;
          changed_at = now;
        }
          ∷ [])
      ≡ total_accrual id rows
total_accrual-new id rows order_id user_id now =
    rw
      (total_accrual-snoc id rows (record {
        order_id = order_id;
        user_id = user_id;
        status = new;
        accrual = pos 0;
        uploaded_at = now;
        changed_at = now;
      }))
      (grind int_laws)

-- What becomes of an upload of a number by a user: the answers of the specification, and an error where
-- a number exceeds the column, which the specification does not know.
abbrev pub upload : ℕ → ℕ → Tables → Result ServiceError (Unit {0}) × Tables
upload user_id order_id t =
    if not (valid_luhn order_id)
    then (err bad_value, t)
    else if not (fits_bigint order_id && fits_bigint user_id)
    then (err (store out_of_range), t)
    else elim (find (has_order order_id) t.orders) [
      | none ↦ (ok tt, record t { orders = t.orders ++ new_row order_id user_id t ∷ [] })
      | some row ↦
          if row.user_id == user_id
          then (err order_already_loaded, t)
          else (err order_already_loaded_other_user, t)
    ]

pub parse_status-new : parse_status "NEW" ≡ some new
unfolding parse_status
parse_status-new = refl

-- With no fault on the way, an upload of a number that can be read is refused if it fails the Luhn
-- test or exceeds its column, adds the new order with status NEW and no points if no order has the
-- number, and otherwise changes nothing and says whether the user or another has uploaded it.
pub register_order-upload :
    (user order : Bytes) (user_id order_id : ℕ) (t : Tables)
    → parse_uint user ≡ some user_id
    → parse_uint order ≡ some order_id
    → register_order user order (record { tables = t; net = [] })
      ≡ (let (r, t') = upload user_id order_id t in (r, record { tables = t'; net = [] }))
unfolding register_order insert_order get_one_order query query_r_order select_one_order
register_order-upload user order user_id order_id t u o = ground (arith, parse_status-new)

-- An upload changes neither balances nor withdrawals, and what the orders have brought stays.
register_order-keeps :
    (user order : Bytes) (w : World)
    → let t' = (register_order user order w).1.tables in
      (t'.balances ≡ w.tables.balances)
      × (t'.withdrawals ≡ w.tables.withdrawals)
      × ((id : ℕ) → total_accrual id t'.orders ≡ total_accrual id w.tables.orders)
unfolding register_order insert_order get_one_order query query_r_order select_one_order
register_order-keeps user order w = (
  ground arith,
  ground arith,
  λ id. elim (Option-cases (parse_uint order)) [
    | inl bad ↦ ground arith
    | inr (order_id, o) ↦ elim (Option-cases (parse_uint user)) [
      | inl bad ↦ ground arith
      | inr (user_id, u) ↦ ground (
        arith,
        parse_status-new,
        total_accrual-new id w.tables.orders order_id user_id w.tables.now,
      )
    ]
  ],
)

-- `RegisterOrder` keeps the books balanced, whatever breaks on the way.
pub register_order-IsBalanced :
    (user order : Bytes) (w : World)
    → IsBalanced w.tables
    → IsBalanced (register_order user order w).1.tables
register_order-IsBalanced user order w b =
    let (balances, withdrawals, accrual) = register_order-keeps user order w in
    record {
      spent = λ id. rw (balances, withdrawals) (b.spent id);
      earned = λ id. rw (balances, accrual id) (b.earned id);
      covered = λ id. rw balances (b.covered id);
    }

-- A withdrawal request leaves the tables alone, or passes its sum on to the store.
pub post_withdraw-cases :
    (user : Bytes) (withdraw : Withdraw) (w : World)
    → let t' = (post_withdraw user withdraw w).1.tables in
      (t' ≡ w.tables)
      ⊎ ((call : Store.Withdraw) × ((call.sum ≡ withdraw.sum)
            × (t' ≡ (insert_withdraw call w).1.tables)))
unfolding post_withdraw
post_withdraw-cases user withdraw w = elim (Option-cases (parse_uint user)) [
  | inl bad ↦ inl (ground arith)
  | inr (user_id, u) ↦ elim (Option-cases (parse_uint withdraw.order_id)) [
    | inl bad ↦ inl (ground arith)
    | inr (order_id, o) ↦ elim (Bool-cases (valid_luhn order_id)) [
      | inr wrong ↦ inl (ground arith)
      | inl valid ↦ inr (
        record { user_id = user_id; order_id = order_id; sum = withdraw.sum; time_c = 0 },
        (refl, ground arith),
      )
    ]
  ]
]

-- `PostWithdraw` of a sum that is not negative keeps the books balanced, whatever breaks on the way.
pub post_withdraw-IsBalanced :
    (user : Bytes) (withdraw : Withdraw) (w : World)
    → pos 0 ≤ℤ withdraw.sum.cents
    → IsBalanced w.tables
    → IsBalanced (post_withdraw user withdraw w).1.tables
post_withdraw-IsBalanced user withdraw w positive b = elim (post_withdraw-cases user withdraw w) [
  | inl same ↦ subst IsBalanced (sym same) b
  | inr (call, same) ↦
      subst IsBalanced (sym same.1) (insert_withdraw-IsBalanced call w (rw same.0 positive) b)
]
