-- ===== src/System/Sent.antt =====
-- The orders of a round that runs stay as they were sent, whatever requests are served meanwhile.
use gomart.Prelude.{ℕ, ◌≡◌, refl, ap, ◌∙◌, inl, inr, some, List, [], ◌∷◌, ◌++◌, Bytes, arith, All}
use gomart.Password.{Hmac}
use gomart.Store.{Order}
use gomart.Tables.{has_order, insert_user}
use gomart.Tables.Rows.{OrderRow, find}
use gomart.Conn.{World, query}
use gomart.PgStore.{add_user}
use gomart.Service.{UserRegistration, register_user}
use gomart.Service.Sound.{Uploaded, unchanged, added, register_order-Uploaded, post_withdraw-orders}
use gomart.Handlers.{Request}
use gomart.Handlers.Pages.{Codec}
use gomart.Accrual.Answers.{IsSent}
use gomart.Accrual.Cycle.{Waiting}
use gomart.System.{
  Route, post_orders, get_orders, get_withdrawals, get_balance, post_withdraw, register, login,
  page,
}
use gomart.System.Pages.{
  main_page_get_balance-keeps, main_page_get_withdrawals-keeps, main_page_get_orders-keeps,
  main_page_login-keeps, main_page_post_order-ends, main_page_post_withdraw-ends,
  main_page_register-ends,
}

pub find-snoc :
    (id : ℕ) (rows : List OrderRow) (row found : OrderRow)
    → find (has_order id) rows ≡ some found
    → find (has_order id) (rows ++ row ∷ []) ≡ some found
find-snoc id [] row found e = absurd (ground arith)
find-snoc id (r ∷ rows) row found e = ground (arith, e, find-snoc id rows row found)

IsSent-snoc :
    (rows : List OrderRow) (row : OrderRow) (o : Order)
    → IsSent rows o
    → IsSent (rows ++ row ∷ []) o
IsSent-snoc rows row o h = record {
  row = h.row;
  found = find-snoc o.order_id rows row h.row h.found;
  owner = h.owner;
  unpaid = h.unpaid;
}

pub AreSent-snoc :
    (rows : List OrderRow) (row : OrderRow) (os : List Order)
    → All (IsSent rows) os
    → All (IsSent (rows ++ row ∷ [])) os
AreSent-snoc rows row [] h = tt
AreSent-snoc rows row (o ∷ os) h = (IsSent-snoc rows row o h.0, AreSent-snoc rows row os h.1)

pub Uploaded-Waiting :
    (rows rows' : List OrderRow) (os : List Order)
    → Uploaded rows rows'
    → Waiting rows os
    → Waiting rows' os
Uploaded-Waiting rows rows' os (unchanged e) h = rw e h
Uploaded-Waiting rows rows' os (added row free unpaid e) h =
    rw e (AreSent-snoc rows row os h.0, h.1)

register_user-orders :
    (hmac : Hmac) (key : Bytes) (user : UserRegistration) (w : World)
    → (register_user hmac key user w).1.tables.orders ≡ w.tables.orders
unfolding register_user add_user query insert_user
register_user-orders hmac key user w = ground arith

module _ (codec : Codec) (hmac : Hmac) (key_sig : Bytes) where
  pub page-Uploaded :
      (route : Route) (req : Request) (w : World)
      → Uploaded w.tables.orders (page codec hmac key_sig route req w).1.tables.orders
  page-Uploaded post_orders req w = elim (main_page_post_order-ends req w) [
    | inl same ↦ unchanged (ap (λ t. t.orders) same)
    | inr (user, body, same) ↦ rw same (register_order-Uploaded user body w)
  ]
  page-Uploaded get_orders req w = rw (main_page_get_orders-keeps codec req w) (unchanged refl)
  page-Uploaded get_withdrawals req w =
      rw (main_page_get_withdrawals-keeps codec req w) (unchanged refl)
  page-Uploaded get_balance req w = rw (main_page_get_balance-keeps codec req w) (unchanged refl)
  page-Uploaded post_withdraw req w = elim (main_page_post_withdraw-ends codec req w) [
    | inl same ↦ unchanged (ap (λ t. t.orders) same)
    | inr (user, x, decoded, same) ↦
        unchanged (ap (λ t. t.orders) same ∙ post_withdraw-orders user x w)
  ]
  page-Uploaded register req w = elim (main_page_register-ends codec hmac key_sig req w) [
    | inl same ↦ unchanged (ap (λ t. t.orders) same)
    | inr (user, same) ↦
        unchanged (ap (λ t. t.orders) same ∙ register_user-orders hmac key_sig user w)
  ]
  page-Uploaded login req w = rw (main_page_login-keeps codec hmac key_sig req w) (unchanged refl)
