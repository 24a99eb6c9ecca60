-- ===== src/Service/Sound.antt =====
-- What the operations of internal/gophermart/service/service.go that store something leave sound.
use gomart.Prelude.{
  ◌≡◌, refl, ap, ◌∙◌, ◌⊎◌, inl, inr, Option-cases, none, List, [], ◌∷◌, ◌++◌, Bytes, arith, All,
  All-append,
}
use gomart.Prelude.Int.{pos, ◌≤ℤ◌}
use gomart.Password.{Hmac}
use gomart.Uint.{parse_uint}
use gomart.Tables.{has_order, query_r_order, select_one_order, insert_user}
use gomart.Tables.Rows.{OrderRow, Tables, find}
use gomart.Conn.{World, query}
use gomart.PgStore.{insert_order, get_one_order, add_user}
use gomart.PgStore.Withdrawal.{insert_withdraw-Debits}
use gomart.Ledger.Keys.{Differs, IsKeyed, Unpaid}
use gomart.Ledger.Sound.{IsSound}
use gomart.Service.{UserRegistration, register_user, register_order, Withdraw, post_withdraw}
use gomart.Service.Orders.{
  new_row, parse_status-new, register_order-IsBalanced, post_withdraw-cases,
  post_withdraw-IsBalanced,
}

pub IsSound-same :
    (t t' : Tables)
    → t'.orders ≡ t.orders
    → t'.balances ≡ t.balances
    → t'.withdrawals ≡ t.withdrawals
    → IsSound t
    → IsSound t'
IsSound-same t t' o b w h = record {
  books = record {
    spent = λ id. rw (b, w) (h.books.spent id);
    earned = λ id. rw (b, o) (h.books.earned id);
    covered = λ id. rw b (h.books.covered id);
  };
  keyed = rw o h.keyed;
  unpaid = rw o h.unpaid;
}

-- An upload leaves the orders as they are, or adds one with a number that no order has.
pub data Uploaded (rows rows' : List OrderRow) : Type 0 where
  unchanged : rows' ≡ rows → Uploaded rows rows'
  added :
      (row : OrderRow)
      → find (has_order row.order_id) rows ≡ none
      → row.accrual ≡ pos 0
      → rows' ≡ rows ++ row ∷ []
      → Uploaded rows rows'

pub register_order-Uploaded :
    (user order : Bytes) (w : World)
    → Uploaded w.tables.orders (register_order user order w).1.tables.orders
unfolding register_order insert_order get_one_order query query_r_order select_one_order
register_order-Uploaded user order w = elim (Option-cases (parse_uint order)) [
  | inl bad ↦ unchanged (ground arith)
  | inr (order_id, o) ↦ elim (Option-cases (parse_uint user)) [
    | inl bad ↦ unchanged (ground arith)
    | inr (user_id, u) ↦ elim (Option-cases (find (has_order order_id) w.tables.orders)) [
      | inr (row, taken) ↦ unchanged (ground (arith, parse_status-new))
      | inl free ↦
          let stored : ((register_order user order w).1.tables.orders ≡ w.tables.orders)
              ⊎ ((register_order user order w).1.tables.orders
                  ≡ w.tables.orders ++ new_row order_id user_id w.tables ∷ []) =
            ground (arith, parse_status-new) in
          elim stored [
            | inl same ↦ unchanged same
            | inr snoc ↦ added (new_row order_id user_id w.tables) free refl snoc
          ]
    ]
  ]
]

Differs-free :
    (row : OrderRow) (rows : List OrderRow)
    → find (has_order row.order_id) rows ≡ none
    → All (λ r. Differs r row) rows
Differs-free row [] e = tt
Differs-free row (r ∷ rs) e = ((λ same. ground arith), Differs-free row rs (ground arith))

IsKeyed-snoc :
    (row : OrderRow) (rows : List OrderRow)
    → All (λ r. Differs r row) rows
    → IsKeyed rows
    → IsKeyed (rows ++ row ∷ [])
IsKeyed-snoc row [] d k = (tt, tt)
IsKeyed-snoc row (r ∷ rs) d k =
    (All-append (Differs r) rs (row ∷ []) k.0 (d.0, tt), IsKeyed-snoc row rs d.1 k.1)

pub Uploaded-keeps :
    (rows rows' : List OrderRow)
    → Uploaded rows rows'
    → IsKeyed rows
    → All Unpaid rows
    → IsKeyed rows' × All Unpaid rows'
Uploaded-keeps rows rows' (unchanged e) k u = rw e (k, u)
Uploaded-keeps rows rows' (added row free none_yet e) k u = rw e (
  IsKeyed-snoc row rows (Differs-free row rows free) k,
  All-append Unpaid rows (row ∷ []) u ((λ h. none_yet), tt),
)

pub register_order-IsSound :
    (user order : Bytes) (w : World)
    → IsSound w.tables
    → IsSound (register_order user order w).1.tables
register_order-IsSound user order w h =
    let (k, u) =
      Uploaded-keeps w.tables.orders (register_order user order w).1.tables.orders
        (register_order-Uploaded user order w) h.keyed h.unpaid in
    record { books = register_order-IsBalanced user order w h.books; keyed = k; unpaid = u }

pub post_withdraw-orders :
    (user : Bytes) (withdraw : Withdraw) (w : World)
    → (post_withdraw user withdraw w).1.tables.orders ≡ w.tables.orders
post_withdraw-orders user withdraw w = elim (post_withdraw-cases user withdraw w) [
  | inl same ↦ ap (λ t. t.orders) same
  | inr (call, same) ↦ elim (insert_withdraw-Debits call w) [
    | inl (e, failed, kept) ↦ ap (λ t. t.orders) (same.1 ∙ kept)
    | inr (enough, fresh, stored) ↦ ap (λ t. t.orders) (same.1 ∙ stored)
  ]
]

pub post_withdraw-IsSound :
    (user : Bytes) (withdraw : Withdraw) (w : World)
    → pos 0 ≤ℤ withdraw.sum.cents
    → IsSound w.tables
    → IsSound (post_withdraw user withdraw w).1.tables
post_withdraw-IsSound user withdraw w positive h = record {
  books = post_withdraw-IsBalanced user withdraw w positive h.books;
  keyed = rw (post_withdraw-orders user withdraw w) h.keyed;
  unpaid = rw (post_withdraw-orders user withdraw w) h.unpaid;
}

pub register_user-IsSound :
    (hmac : Hmac) (key : Bytes) (user : UserRegistration) (w : World)
    → IsSound w.tables
    → IsSound (register_user hmac key user w).1.tables
unfolding register_user add_user query insert_user
register_user-IsSound hmac key user w h =
    IsSound-same w.tables (register_user hmac key user w).1.tables (ground arith) (ground arith)
      (ground arith) h
