-- ===== src/System/Pages.antt =====
-- What the handlers of internal/gophermart/handlers/handlers.go do to the tables: nothing, or one call of
-- the service.
use gomart.Prelude.{◌≡◌, refl, ◌⊎◌, inl, inr, Bool-cases, Option-cases, some, Bytes, str_eq, arith}
use gomart.Password.{Hmac}
use gomart.Tables.{select_orders, select_balance, select_withdrawals, select_user}
use gomart.Conn.{World, query}
use gomart.PgStore
use gomart.PgStore.{get_user}
use gomart.Service
use gomart.Service.{Withdraw, UserRegistration, login_user, register_user, register_order}
use gomart.Handlers.{
  Request, Token, refused, panics, claimed, test_token, with_user, main_page_post_order,
  application_json_content, text_plain_content,
}
use gomart.Handlers.Pages.{
  Codec, from_json, main_page_post_withdraw, main_page_get_balance, main_page_get_withdrawals,
  main_page_get_orders, main_page_register, main_page_login,
}

Token-cases : (k : Token) → (k ≡ refused) ⊎ (k ≡ panics) ⊎ ((s : Bytes) × (k ≡ claimed s))
Token-cases refused = inl refl
Token-cases panics = inr (inl refl)
Token-cases (claimed s) = inr (inr (s, refl))

-- The reading pages leave the tables alone.
pub main_page_get_balance-keeps :
    (codec : Codec) (req : Request) (w : World)
    → (main_page_get_balance codec req w).1.tables ≡ w.tables
unfolding main_page_get_balance with_user Service.get_balance PgStore.get_balance query
    select_balance
main_page_get_balance-keeps codec req w = ground arith

pub main_page_get_withdrawals-keeps :
    (codec : Codec) (req : Request) (w : World)
    → (main_page_get_withdrawals codec req w).1.tables ≡ w.tables
unfolding main_page_get_withdrawals with_user Service.get_withdrawals PgStore.get_withdrawals query
    select_withdrawals
main_page_get_withdrawals-keeps codec req w = ground arith

pub main_page_get_orders-keeps :
    (codec : Codec) (req : Request) (w : World)
    → (main_page_get_orders codec req w).1.tables ≡ w.tables
unfolding main_page_get_orders with_user Service.get_orders PgStore.get_orders query select_orders
main_page_get_orders-keeps codec req w = ground arith

pub main_page_login-keeps :
    (codec : Codec) (hmac : Hmac) (key : Bytes) (req : Request) (w : World)
    → (main_page_login codec hmac key req w).1.tables ≡ w.tables
unfolding main_page_login login_user get_user query select_user
main_page_login-keeps codec hmac key req w = ground arith

-- An upload leaves the tables alone, or is one with the service.
pub main_page_post_order-ends :
    (req : Request) (w : World)
    → ((main_page_post_order req w).1.tables ≡ w.tables)
      ⊎ ((user : Bytes) × (body : Bytes) × ((main_page_post_order req w).1.tables
            ≡ (register_order user body w).1.tables))
unfolding main_page_post_order with_user
main_page_post_order-ends req w = elim (Bool-cases (str_eq req.content_type text_plain_content)) [
  | inr bad ↦ inl (ground arith)
  | inl plain ↦ elim (Token-cases (test_token req)) [
    | inl stop ↦ inl (ground arith)
    | inr (inl stop) ↦ inl (ground arith)
    | inr (inr (user, token)) ↦ elim (Option-cases req.body) [
      | inl unread ↦ inl (ground arith)
      | inr (body, read) ↦ inr (user, body, ground arith)
    ]
  ]
]

-- So does a withdrawal, with the sum that the request asks for.
pub main_page_post_withdraw-ends :
    (codec : Codec) (req : Request) (w : World)
    → ((main_page_post_withdraw codec req w).1.tables ≡ w.tables)
      ⊎ ((user : Bytes) × (x : Withdraw) × ((body : Bytes) × (codec.decode_withdraw body ≡ some x))
          × ((main_page_post_withdraw codec req w).1.tables
              ≡ (Service.post_withdraw user x w).1.tables))
unfolding main_page_post_withdraw with_user
main_page_post_withdraw-ends codec req w =
    elim (Bool-cases (str_eq req.content_type application_json_content)) [
      | inr bad ↦ inl (ground arith)
      | inl plain ↦ elim (Token-cases (test_token req)) [
        | inl stop ↦ inl (ground arith)
        | inr (inl stop) ↦ inl (ground arith)
        | inr (inr (user, token)) ↦ elim (Option-cases req.body) [
          | inl unread ↦ inl (ground arith)
          | inr (body, read) ↦ elim (Option-cases (codec.decode_withdraw body)) [
            | inl bad ↦ inl (ground arith)
            | inr (x, decoded) ↦ inr (user, x, (body, decoded), ground arith)
          ]
        ]
      ]
    ]

-- A registration leaves the tables alone, or is one with the service.
pub main_page_register-ends :
    (codec : Codec) (hmac : Hmac) (key : Bytes) (req : Request) (w : World)
    → ((main_page_register codec hmac key req w).1.tables ≡ w.tables)
      ⊎ ((user : UserRegistration) × ((main_page_register codec hmac key req w).1.tables
            ≡ (register_user hmac key user w).1.tables))
unfolding main_page_register
main_page_register-ends codec hmac key req w =
    elim (Bool-cases (str_eq req.content_type application_json_content)) [
      | inr bad ↦ inl (ground arith)
      | inl json ↦ elim (Option-cases (from_json codec.decode_user req.body)) [
        | inl bad ↦ inl (ground arith)
        | inr (user, decoded) ↦ inr (user, ground arith)
      ]
    ]
