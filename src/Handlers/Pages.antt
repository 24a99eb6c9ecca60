-- ===== src/Handlers/Pages.antt =====
-- The handlers that read or write JSON bodies, internal/gophermart/handlers/handlers.go.
use gomart.Prelude.{
  ℕ, not, Option, none, some, List, [], ◌∷◌, Bytes, if◌then◌else◌, str_eq, Result, ok, err,
}
use gomart.Password.{Hmac}
use gomart.Service
use gomart.Service.{ServiceError, UserRegistration, Order, Balance, Withdraw}
use gomart.Handlers.{
  application_json_content, Request, Response, write_header, with_user, withdraw_status,
  register_status, login_status, bad_content, typed, Page,
}

abbrev json : ℕ → Bytes → Response
json code body = record {
  status = code;
  content_type = some application_json_content;
  cookie = none;
  body = body;
}

abbrev withdraw_response : Request → Result ServiceError (Unit {0}) → Response
withdraw_response req (ok _) = typed req 200
withdraw_response req (err e) = write_header (withdraw_status e)

-- What `encoding/json` makes of a value, or its error.
abbrev encoded : Option Bytes → Response
encoded none = json 500 []
encoded (some body) = json 200 body

-- `len(val) == 0`
abbrev listed {ℓ} : {A : Type ℓ} → List A → Option Bytes → Response
listed [] body = json 204 []
listed (a ∷ as_) body = encoded body

-- The libraries that read and write the bodies: `encoding/json` with `decimal.Decimal`, and the
-- token that `createToken` signs for a user's number and name.
pub record Codec : Type 0 where
  pub decode_withdraw : Bytes → Option Withdraw
  pub decode_user : Bytes → Option UserRegistration
  pub encode_balance : Balance → Option Bytes
  pub encode_orders : List Order → Option Bytes
  pub encode_withdrawals : List Withdraw → Option Bytes
  pub create_token : Bytes → Bytes → Option Bytes

-- `FromJSON(req.Body)`
abbrev pub from_json : {A : Type 0} → (Bytes → Option A) → Option Bytes → Option A
from_json decode none = none
from_json decode (some body) = decode body

module _ (codec : Codec) where
  unfoldable pub main_page_post_withdraw : Request → Page
  unfolding with_user
  main_page_post_withdraw req w =
      if not (str_eq req.content_type application_json_content)
      then (bad_content, w)
      else with_user req
          (λ user_id w₁. elim (from_json codec.decode_withdraw req.body) [
            | none ↦ (write_header 500, w₁)
            | some withdraw ↦
                let (r, w₂) = Service.post_withdraw user_id withdraw w₁ in
                (withdraw_response req r, w₂)
          ])
          w

  abbrev balance_response : Result ServiceError Balance → Response
  balance_response (ok val) = encoded (codec.encode_balance val)
  balance_response (err _) = json 500 []

  unfoldable pub main_page_get_balance : Request → Page
  unfolding with_user
  main_page_get_balance req =
      with_user req
        (λ user_id w. let (r, w') = Service.get_balance user_id w in (balance_response r, w'))

  abbrev withdrawals_response : Result ServiceError (List Withdraw) → Response
  withdrawals_response (ok val) = listed val (codec.encode_withdrawals val)
  withdrawals_response (err _) = json 500 []

  unfoldable pub main_page_get_withdrawals : Request → Page
  unfolding with_user
  main_page_get_withdrawals req =
      with_user req (λ user_id w.
        let (r, w') = Service.get_withdrawals user_id w in (withdrawals_response r, w'))

  -- The content type is set after the service has answered.
  abbrev orders_response : Result ServiceError (List Order) → Response
  orders_response (ok val) = listed val (codec.encode_orders val)
  orders_response (err _) = write_header 500

  unfoldable pub main_page_get_orders : Request → Page
  unfolding with_user
  main_page_get_orders req =
      with_user req
        (λ user_id w. let (r, w') = Service.get_orders user_id w in (orders_response r, w'))

  abbrev with_cookie : Response → Bytes → Response
  with_cookie response token = record response { cookie = some token }

  -- `createToken` comes before the content type.
  abbrev registered_response : Request → Option Bytes → Response
  registered_response req none = write_header 500
  registered_response req (some token) = with_cookie (typed req 200) token

  -- `createToken` comes after the content type.
  abbrev logged_in_response : Request → Option Bytes → Response
  logged_in_response req none = typed req 500
  logged_in_response req (some token) = with_cookie (typed req 200) token

  module _ (hmac : Hmac) (key_sig : Bytes) where
    abbrev register_response : Request → UserRegistration → Result ServiceError Bytes → Response
    register_response req user (ok id) = registered_response req (codec.create_token id user.name)
    register_response req user (err e) = write_header (register_status e)

    unfoldable pub main_page_register : Request → Page
    main_page_register req w =
        if not (str_eq req.content_type application_json_content)
        then (bad_content, w)
        else elim (from_json codec.decode_user req.body) [
          | none ↦ (write_header 500, w)
          | some user ↦
              let (r, w') = Service.register_user hmac key_sig user w in
              (register_response req user r, w')
        ]

    abbrev login_response : Request → UserRegistration → Result ServiceError Bytes → Response
    login_response req user (ok id) = logged_in_response req (codec.create_token id user.name)
    login_response req user (err e) = write_header (login_status e)

    unfoldable pub main_page_login : Request → Page
    main_page_login req w =
        if not (str_eq req.content_type application_json_content)
        then (bad_content, w)
        else elim (from_json codec.decode_user req.body) [
          | none ↦ (write_header 500, w)
          | some user ↦
              let (r, w') = Service.login_user hmac key_sig user w in
              (login_response req user r, w')
        ]
