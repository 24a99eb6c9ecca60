-- ===== src/Service.antt =====
-- `HandleService` of internal/gophermart/service/service.go: the operations behind the HTTP handlers
-- and the accrual client.
pub mod Accounts
pub mod Orders
pub mod Sound
use gomart.Prelude.{
  ℕ, String, Bool, true, false, ◌||◌, not, Option, none, some, List, [], ◌∷◌, map, Bytes, is_empty,
  bytes_eq, ◌==◌, if◌then◌else◌, Result, ok, err,
}
use gomart.Prelude.Int.{ℤ, pos}
use gomart.Store.{Decimal, zero_decimal}
use gomart.Store
use gomart.Luhn.{valid_luhn}
use gomart.Uint.{parse_uint, format_uint}
use gomart.Password.{Hmac, stored_password}
use gomart.Tables.{PgError, already_exists, row_not_found, balance_not_enough}
use gomart.Conn.{World}
use gomart.PgStore
use gomart.Batch.{update_orders_balances_batch}

-- The errors that the service declares, and those that it passes on.
pub data ServiceError : Type 0 where
  authentication_failed bad_pass bad_value bad_value_user : ServiceError
  order_already_loaded order_already_loaded_other_user not_enough : ServiceError
  store : PgError → ServiceError

-- internal/common/models/models.go
pub record UserRegistration : Type 0 where
  pub name : Bytes
  pub password : Bytes

pub record Order : Type 0 where
  pub order_id : Bytes
  pub status : String
  pub accrual : Decimal
  pub time : ℕ

pub record Balance : Type 0 where
  pub accrual : ℤ
  pub withdrawn : ℤ

pub record Withdraw : Type 0 where
  pub order_id : Bytes
  pub sum : Decimal
  pub time_c : ℕ

abbrev pub Serve : Type 0 → Type 0
Serve A = World → Result ServiceError A × World

-- What the service makes of the store's answer.
abbrev pub answer :
    {A B : Type 0}
    → (A → Result ServiceError B)
    → (PgError → ServiceError)
    → Result PgError A
    → Result ServiceError B
answer f g (ok a) = f a
answer f g (err e) = err (g e)

abbrev register_error : PgError → ServiceError
register_error already_exists = authentication_failed
register_error e = store e

abbrev login_error : PgError → ServiceError
login_error row_not_found = authentication_failed
login_error e = store e

abbrev withdraw_error : PgError → ServiceError
withdraw_error balance_not_enough = not_enough
withdraw_error e = store e

module _ (hmac : Hmac) (key_sig : Bytes) where
  unfoldable pub register_user : UserRegistration → Serve Bytes
  register_user user w =
      if is_empty user.name || is_empty user.password
      then (err bad_pass, w)
      else (let (r, w') =
            PgStore.add_user
              (record {
                name = user.name;
                password = stored_password hmac key_sig user.password;
                id = 0;
              })
              w in
          (answer (λ added. ok (format_uint added.id)) register_error r, w'))

  -- `hex.EncodeToString(pass) != userGet.Password`
  abbrev pub check_password : UserRegistration → Store.User → Result ServiceError Bytes
  check_password user found =
      if bytes_eq (stored_password hmac key_sig user.password) found.password
      then ok (format_uint found.id)
      else err authentication_failed

  unfoldable pub login_user : UserRegistration → Serve Bytes
  login_user user w =
      if is_empty user.name || is_empty user.password
      then (err bad_pass, w)
      else (let (r, w') = PgStore.get_user (record { name = user.name; password = []; id = 0 }) w in
          (answer (check_password user) login_error r, w'))

unfoldable pub post_withdraw : Bytes → Withdraw → Serve (Unit {0})
post_withdraw user_id_str withdraw w = elim (parse_uint user_id_str) [
  | none ↦ (err bad_value_user, w)
  | some user_id ↦ elim (parse_uint withdraw.order_id) [
    | none ↦ (err bad_value, w)
    | some order_id ↦
        if not (valid_luhn order_id)
        then (err bad_value, w)
        else (let (r, w') =
              PgStore.insert_withdraw
                (record { user_id = user_id; order_id = order_id; sum = withdraw.sum; time_c = 0 })
                w in
            (answer ok withdraw_error r, w'))
  ]
]

-- `errors.Is(err, pg.ErrAlreadyExists)`: whose order it is.
unfoldable pub loaded_by : ℕ → ℕ → Serve (Unit {0})
loaded_by user_id order_id w =
    let (r, w') = PgStore.get_one_order order_id w in
    (
      answer
          (λ one.
            if not (one.user_id == user_id)
            then err order_already_loaded_other_user
            else err order_already_loaded)
          store r,
      w',
    )

unfoldable pub new_order : ℕ → ℕ → Store.Order
new_order order_id user_id = record {
  order_id = order_id;
  user_id = user_id;
  status = "NEW";
  accrual = zero_decimal;
  time_u = 0;
  time_c = 0;
}

abbrev pub after_insert :
    ℕ → ℕ → Result PgError (Unit {0}) × World → Result ServiceError (Unit {0}) × World
after_insert user_id order_id (ok _, w) = (ok tt, w)
after_insert user_id order_id (err already_exists, w) = loaded_by user_id order_id w
after_insert user_id order_id (err e, w) = (err (store e), w)

unfoldable pub register_order : Bytes → Bytes → Serve (Unit {0})
unfolding loaded_by new_order
register_order user_id_str order_id_str w = elim (parse_uint order_id_str) [
  | none ↦ (err bad_value, w)
  | some order_id ↦
      if not (valid_luhn order_id) then (err bad_value, w) else elim (parse_uint user_id_str) [
        | none ↦ (err bad_value_user, w)
        | some user_id ↦
            after_insert user_id order_id (PgStore.insert_order (new_order order_id user_id) w)
      ]
]

abbrev order_view : Store.Order → Order
order_view v = record {
  order_id = format_uint v.order_id;
  status = v.status;
  accrual = v.accrual;
  time = v.time_u;
}

abbrev withdraw_view : Store.Withdraw → Withdraw
withdraw_view v = record { order_id = format_uint v.order_id; sum = v.sum; time_c = v.time_c }

unfoldable pub get_orders : Bytes → Serve (List Order)
get_orders user_id_str w = elim (parse_uint user_id_str) [
  | none ↦ (err bad_value, w)
  | some user_id ↦
      let (r, w') = PgStore.get_orders user_id w in
      (answer (λ vals. ok (map order_view vals)) store r, w')
]

unfoldable pub get_withdrawals : Bytes → Serve (List Withdraw)
get_withdrawals user_id_str w = elim (parse_uint user_id_str) [
  | none ↦ (err bad_value, w)
  | some user_id ↦
      let (r, w') = PgStore.get_withdrawals user_id w in
      (answer (λ vals. ok (map withdraw_view vals)) store r, w')
]

abbrev zero_balance : Balance
zero_balance = record { accrual = pos 0; withdrawn = pos 0 }

-- A user with no row has an empty balance.
abbrev balance_answer : Result PgError Store.Balance → Result ServiceError Balance
balance_answer (ok val) = ok (record { accrual = val.accrual; withdrawn = val.withdrawn })
balance_answer (err row_not_found) = ok zero_balance
balance_answer (err e) = err (store e)

unfoldable pub get_balance : Bytes → Serve Balance
get_balance user_id_str w = elim (parse_uint user_id_str) [
  | none ↦ (err bad_value, w)
  | some user_id ↦ let (r, w') = PgStore.get_balance user_id w in (balance_answer r, w')
]

unfoldable pub get_orders_for_process : Serve (List Store.Order)
get_orders_for_process w =
    let (r, w') = PgStore.get_orders_for_processing w in (answer ok store r, w')

-- Nothing sets `limitbatch` of the store: all orders go in one batch.
unfoldable pub update_orders_and_balances : List Store.Order → Serve (Unit {0})
update_orders_and_balances upd_orders w =
    let (r, w') = update_orders_balances_batch 0 upd_orders w in (answer ok store r, w')
