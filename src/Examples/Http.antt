-- ===== src/Examples/Http.antt =====
-- Requests on the sample tables.
use gomart.Prelude.{◌≡◌, refl, true, some, [], ◌∷◌, Bytes, codes, if◌then◌else◌, arith, String}
use gomart.Prelude.Int.{pos, ◌-ℤ◌, ◌+ℤ◌}
use gomart.Store
use gomart.Store.{of_cents, is_less}
use gomart.Luhn.{valid_luhn}
use gomart.Luhn.Digits.{valid_luhn-eq-luhn_sum, luhn_sum}
use gomart.Uint.{parse_uint}
use gomart.Tables.{decreased}
use gomart.PgStore.Withdrawal.{current_of, debited}
use gomart.Service.{Withdraw, register_order}
use gomart.Service.Orders.{upload, register_order-upload}
use gomart.Handlers.{
  application_json_content, text_plain_content, Subject, no_token, subject, Request, test_token,
  main_page_post_order,
}
use gomart.Handlers.Pages.{Codec, main_page_post_withdraw, main_page_login}
use gomart.Handlers.Statuses.{
  upload_outcome, main_page_post_order-served, main_page_post_withdraw-served,
  main_page_login-unknown,
}
use gomart.Examples.{hmac, tables, world}

abbrev pub codec : Codec
codec = record {
  decode_withdraw =
      λ body. some (record { order_id = body; sum = of_cents (pos 12000); time_c = 0 });
  decode_user = λ body. some (record { name = body; password = body });
  encode_balance = λ b. some (codes "{}");
  encode_orders = λ os. some (codes "[]");
  encode_withdrawals = λ ws. some (codes "[]");
  create_token = λ id name. some id;
}

abbrev pub request : String → Subject → Request
request content claims = record {
  content_type = content;
  accept = "text/html";
  url = "/";
  claims = claims;
  body = some (codes "79927398713");
}

abbrev pub first_user : Bytes
first_user = codes "1"

number : parse_uint (codes "79927398713") ≡ some 79927398713
unfolding parse_uint
number = refl

first_user-number : parse_uint first_user ≡ some 1
unfolding parse_uint
first_user-number = refl

number-valid : valid_luhn 79927398713 ≡ true
unfolding luhn_sum
number-valid =
    valid_luhn-eq-luhn_sum (3 ∷ 1 ∷ 7 ∷ 8 ∷ 9 ∷ 3 ∷ 7 ∷ 2 ∷ 9 ∷ 9 ∷ 7 ∷ [])
      (
        omega arith,
        (
          omega arith,
          (
            omega arith,
            (
              omega arith,
              (
                omega arith,
                (
                  omega arith,
                  (omega arith, (omega arith, (omega arith, (omega arith, (omega arith, tt))))),
                ),
              ),
            ),
          ),
        ),
      )
      (omega arith)

register_order-upload_example :
    register_order first_user (codes "79927398713") world
    ≡ (let (r, t') = upload 1 79927398713 tables in (r, record { tables = t'; net = [] }))
register_order-upload_example =
    register_order-upload first_user (codes "79927398713") 1 79927398713 tables first_user-number
      number

main_page_post_order-served_example :
    let (res, w') = main_page_post_order (request text_plain_content (subject first_user)) world in
    (res.status ≡ (upload_outcome 1 79927398713 tables).0)
    × (w' ≡ record { tables = (upload_outcome 1 79927398713 tables).1; net = [] })
unfolding test_token
main_page_post_order-served_example =
    main_page_post_order-served (request text_plain_content (subject first_user)) first_user
      (codes "79927398713") 1 79927398713 tables refl refl refl first_user-number number

main_page_login-unknown_example :
    (main_page_login codec hmac [] (request application_json_content no_token) world).0.status ≡ 500
main_page_login-unknown_example =
    main_page_login-unknown codec hmac [] (request application_json_content no_token)
      (codes "79927398713") (record { name = codes "79927398713"; password = codes "79927398713" })
      world refl refl refl refl refl refl refl

abbrev spent : Withdraw
spent = record { order_id = codes "79927398713"; sum = of_cents (pos 12000); time_c = 0 }

main_page_post_withdraw-served_example :
    let call : Store.Withdraw = record {
      user_id = 1;
      order_id = 79927398713;
      sum = of_cents (pos 12000);
      time_c = 0;
    } in
    let (res, w') =
      main_page_post_withdraw codec (request application_json_content (subject first_user)) world in
    (res.status
      ≡ (if is_less (current_of 1 tables.balances) (of_cents (pos 12000)) then 402 else 200))
    × (w'.tables ≡ (
        if is_less (current_of 1 tables.balances) (of_cents (pos 12000))
        then tables
        else debited call tables))
unfolding test_token decreased ◌-ℤ◌ ◌+ℤ◌
main_page_post_withdraw-served_example =
    main_page_post_withdraw-served codec (request application_json_content (subject first_user))
      first_user (codes "79927398713") spent 1 79927398713 tables refl refl refl refl
      first_user-number number number-valid refl refl refl (refl, refl) refl
