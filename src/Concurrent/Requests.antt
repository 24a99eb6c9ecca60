-- ===== src/Concurrent/Requests.antt =====
-- The handlers that make no transaction leave the balances and the withdrawals alone.
use gomart.Prelude.{◌≡◌, ◌≢◌, refl, ap, inl, inr, List, Bytes, arith}
use gomart.Prelude.Int.{int_laws}
use gomart.Password.{Hmac}
use gomart.Tables.{query_r_order, select_one_order, insert_user}
use gomart.Tables.Rows.{OrderRow, Tables}
use gomart.Conn.{World, query}
use gomart.PgStore.{insert_order, get_one_order, add_user}
use gomart.Ledger.{total_accrual}
use gomart.Ledger.Sums.{total_accrual-snoc}
use gomart.Prelude.{ℕ}
use gomart.Service.{UserRegistration, register_user, register_order}
use gomart.Service.Sound.{Uploaded, unchanged, added}
use gomart.Handlers.{Request}
use gomart.Handlers.Pages.{Codec}
use gomart.System.{
  Route, post_orders, get_orders, get_withdrawals, get_balance, post_withdraw, register, login,
  page,
}
use gomart.System.Pages.{
  main_page_get_balance-keeps, main_page_get_withdrawals-keeps, main_page_get_orders-keeps,
  main_page_login-keeps, main_page_post_order-ends, main_page_register-ends,
}

-- The same balances and withdrawals.
pub record Keeps (t t' : Tables) : Type 0 where
  pub balances : t'.balances ≡ t.balances
  pub withdrawals : t'.withdrawals ≡ t.withdrawals

Keeps-same : (t t' : Tables) → t' ≡ t → Keeps t t'
Keeps-same t t' e = record {
  balances = ap (λ x. x.balances) e;
  withdrawals = ap (λ x. x.withdrawals) e;
}

register_order-Keeps :
    (user order : Bytes) (w : World) → Keeps w.tables (register_order user order w).1.tables
unfolding register_order insert_order get_one_order query query_r_order select_one_order
register_order-Keeps user order w = record { balances = ground arith; withdrawals = ground arith }

register_user-Keeps :
    (hmac : Hmac) (key : Bytes) (user : UserRegistration) (w : World)
    → Keeps w.tables (register_user hmac key user w).1.tables
unfolding register_user add_user query insert_user
register_user-Keeps hmac key user w = record { balances = ground arith; withdrawals = ground arith }

Keeps-after : (t t' t'' : Tables) → t'' ≡ t' → Keeps t t' → Keeps t t''
Keeps-after t t' t'' e h = rw e h

pub page-Keeps :
    (codec : Codec) (hmac : Hmac) (key_sig : Bytes) (route : Route) (req : Request) (w : World)
    → route ≢ post_withdraw
    → Keeps w.tables (page codec hmac key_sig route req w).1.tables
page-Keeps codec hmac key post_orders req w ne = elim (main_page_post_order-ends req w) [
  | inl same ↦ Keeps-same w.tables _ same
  | inr (user, body, same) ↦ Keeps-after w.tables _ _ same (register_order-Keeps user body w)
]
page-Keeps codec hmac key get_orders req w ne =
    Keeps-same w.tables _ (main_page_get_orders-keeps codec req w)
page-Keeps codec hmac key get_withdrawals req w ne =
    Keeps-same w.tables _ (main_page_get_withdrawals-keeps codec req w)
page-Keeps codec hmac key get_balance req w ne =
    Keeps-same w.tables _ (main_page_get_balance-keeps codec req w)
page-Keeps codec hmac key post_withdraw req w ne = absurd (ne refl)
page-Keeps codec hmac key register req w ne = elim (main_page_register-ends codec hmac key req w) [
  | inl same ↦ Keeps-same w.tables _ same
  | inr (user, same) ↦ Keeps-after w.tables _ _ same (register_user-Keeps hmac key user w)
]
page-Keeps codec hmac key login req w ne =
    Keeps-same w.tables _ (main_page_login-keeps codec hmac key req w)

-- A new order brings no points.
pub Uploaded-accrual :
    (id : ℕ) (rows rows' : List OrderRow)
    → Uploaded rows rows'
    → total_accrual id rows' ≡ total_accrual id rows
Uploaded-accrual id rows rows' (unchanged e) = ap (total_accrual id) e
Uploaded-accrual id rows rows' (added row free none_yet e) =
    rw (e, total_accrual-snoc id rows row, none_yet) (grind int_laws)
