-- ===== src/Handlers/Statuses.antt =====
-- The status codes that clients see, over the tables.
use gomart.Prelude.{
  ℕ, ◌≡◌, not, ◌&&◌, false, true, none, some, [], ◌∷◌, ◌++◌, Bytes, is_empty, ◌==◌, if◌then◌else◌,
  str_eq, arith,
}
use gomart.Luhn.{valid_luhn}
use gomart.Uint.{parse_uint}
use gomart.Password.{Hmac}
use gomart.Store
use gomart.Store.{is_less}
use gomart.Tables.{
  has_order, has_name, has_withdrawal, of_user, decreased, fits_bigint, fits_numeric,
}
use gomart.Tables.Rows.{Tables, find}
use gomart.Conn.{World}
use gomart.PgStore.Withdrawal.{current_of, debited, insert_withdraw-served}
use gomart.Service.{UserRegistration, Withdraw, post_withdraw}
use gomart.Service.Orders.{new_row, register_order-upload}
use gomart.Service.Accounts.{login_user-unknown}
use gomart.Handlers.{
  application_json_content, text_plain_content, Request, test_token, claimed, main_page_post_order,
}
use gomart.Handlers.Pages.{Codec, main_page_post_withdraw, main_page_login}

-- The status and the tables after an upload of a readable number.
abbrev pub upload_outcome : ℕ → ℕ → Tables → ℕ × Tables
upload_outcome user_id order_id t =
    if not (valid_luhn order_id)
    then (422, t)
    else if not (fits_bigint order_id && fits_bigint user_id)
    then (500, t)
    else elim (find (has_order order_id) t.orders) [
      | none ↦ (202, record t { orders = t.orders ++ new_row order_id user_id t ∷ [] })
      | some row ↦ if row.user_id == user_id then (200, t) else (409, t)
    ]

-- With no fault on the way, a body in plain text that reads as a number of 64 bits, from a user whose
-- number does too, is answered by 422 if it fails the Luhn test, by 500 if it passes and one of the two
-- numbers is 2^63 or more, by 202 if it is new, by 200 if the user has uploaded it before and by 409 if
-- another user has; only with 202 the tables change, by the new order.
pub main_page_post_order-served :
    (req : Request) (user body : Bytes) (user_id order_id : ℕ) (t : Tables)
    → str_eq req.content_type text_plain_content ≡ true
    → test_token req ≡ claimed user
    → req.body ≡ some body
    → parse_uint user ≡ some user_id
    → parse_uint body ≡ some order_id
    → let (res, w') = main_page_post_order req (record { tables = t; net = [] }) in
      (res.status ≡ (upload_outcome user_id order_id t).0)
      × (w' ≡ record { tables = (upload_outcome user_id order_id t).1; net = [] })
unfolding main_page_post_order
main_page_post_order-served req user body user_id order_id t content token read u o = (
  ground (arith, register_order-upload user body user_id order_id t u o),
  ground (arith, register_order-upload user body user_id order_id t u o),
)

-- With no fault on the way, a user's withdrawal that can be decoded, with amounts and numbers that
-- fit their columns and a new order number that passes the Luhn test, is answered by 402 and changes nothing if the balance does not cover it, and by 200 with the sum debited and
-- recorded otherwise.
pub main_page_post_withdraw-served :
    (codec : Codec) (req : Request) (user body : Bytes) (withdraw : Withdraw) (user_id order_id : ℕ)
    (t : Tables)
    → str_eq req.content_type application_json_content ≡ true
    → test_token req ≡ claimed user
    → req.body ≡ some body
    → codec.decode_withdraw body ≡ some withdraw
    → parse_uint user ≡ some user_id
    → parse_uint withdraw.order_id ≡ some order_id
    → valid_luhn order_id ≡ true
    → fits_bigint user_id ≡ true
    → fits_bigint order_id ≡ true
    → fits_numeric withdraw.sum.cents ≡ true
    → (let row =
          decreased user_id withdraw.sum.cents withdraw.sum.cents t.now
            (find (of_user user_id) t.balances) in
        (fits_numeric row.current ≡ true) × (fits_numeric row.withdrawn ≡ true))
    → find (has_withdrawal order_id) t.withdrawals ≡ none
    → let call : Store.Withdraw = record {
      user_id = user_id;
      order_id = order_id;
      sum = withdraw.sum;
      time_c = 0;
    } in
      let (res, w') = main_page_post_withdraw codec req (record { tables = t; net = [] }) in
      (res.status ≡ (if is_less (current_of user_id t.balances) withdraw.sum then 402 else 200))
      × (w'.tables
          ≡ (if is_less (current_of user_id t.balances) withdraw.sum then t else debited call t))
unfolding main_page_post_withdraw post_withdraw
main_page_post_withdraw-served codec req user body withdraw user_id order_id t content token read
      decoded u o valid fu fo fs fr fresh =
    let served =
      insert_withdraw-served
        (record { user_id = user_id; order_id = order_id; sum = withdraw.sum; time_c = 0 }) t fu fo
        fs fr fresh in
    (ground (arith, served), ground (arith, served))

-- With no fault on the way, a login with a JSON body that decodes to a name that nobody has
-- registered and a password, neither empty, is answered by 500.
pub main_page_login-unknown :
    (codec : Codec) (hmac : Hmac) (key : Bytes) (req : Request) (body : Bytes)
    (user : UserRegistration) (w : World)
    → w.net ≡ []
    → str_eq req.content_type application_json_content ≡ true
    → req.body ≡ some body
    → codec.decode_user body ≡ some user
    → is_empty user.name ≡ false
    → is_empty user.password ≡ false
    → find (has_name user.name) w.tables.users ≡ none
    → (main_page_login codec hmac key req w).0.status ≡ 500
unfolding main_page_login
main_page_login-unknown codec hmac key req body user w n content read decoded given pass free =
    ground (arith, login_user-unknown hmac key user w n given pass free)
