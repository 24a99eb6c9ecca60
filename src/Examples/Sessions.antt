-- ===== src/Examples/Sessions.antt =====
-- A login and a request with its cookie.
use gomart.Prelude.{
  ℕ, ◌<◌, ◌≤◌, ◌≡◌, leb, true, ◌&&◌, refl, Option, none, some, [], ◌∷◌, ◌++◌, Bytes, codes, arith,
  length, take, drop, take-append_length, drop-append_length, lt→ltb, if◌then◌else◌, ltb,
}
use gomart.Password.{stored_password, encode_to_string, hash_pass}
use gomart.Uint.{format_uint}
use gomart.Tables.{select_user}
use gomart.Tables.Rows.{UserRow}
use gomart.Conn.{World, query}
use gomart.PgStore.{get_user}
use gomart.Service.{login_user}
use gomart.Handlers.{Request, application_json_content, no_token, subject, claimed, test_token}
use gomart.Handlers.Pages.{Codec, main_page_login}
use gomart.Session.{Claims, Jwt, create_token, guarded, new_router, serve}
use gomart.Session.Login.{LoggedIn, serve-main_page_login}
use gomart.System.{get_balance, page}
use gomart.Examples.{hmac, world}
use gomart.Examples.Http.{codec, request}

-- The claims in plain text.
abbrev sign : Bytes → Claims → Option Bytes
sign key c = some (c.exp ∷ c.iat ∷ length c.sub ∷ length c.name ∷ c.sub ++ (c.name ++ c.iss))

abbrev verify : Bytes → ℕ → Bytes → Option Claims
verify key now (exp ∷ iat ∷ n ∷ m ∷ rest) =
    if ltb now exp && leb iat now
    then some (record {
      sub = take n rest;
      name = take m (drop n rest);
      iss = drop m (drop n rest);
      exp = exp;
      iat = iat;
    })
    else none
verify key now _ = none

pub verify-sign_lem :
    (key : Bytes) (claims : Claims) (token : Bytes) (now : ℕ)
    → sign key claims ≡ some token
    → claims.iat ≤ now
    → now < claims.exp
    → verify key now token ≡ some claims
verify-sign_lem key c token now e i h =
    let same : (c.exp ∷ c.iat ∷ length c.sub ∷ length c.name ∷ c.sub ++ (c.name ++ c.iss)) ≡ token =
      cc in
    let in_time : leb c.iat now ≡ true = ground (arith, i) in
    rw
      (
        ← same,
        lt→ltb now c.exp h,
        in_time,
        take-append_length c.sub (c.name ++ c.iss),
        drop-append_length c.sub (c.name ++ c.iss),
        take-append_length c.name c.iss,
        drop-append_length c.name c.iss,
      )
      refl

jwt : Jwt
jwt = record {
  sign = sign;
  verify = verify;
  refusal = "token is unauthorized";
  verify-sign = verify-sign_lem;
}

abbrev key : Bytes
key = codes "key"

-- The sample codec, with tokens of the time 1000.
abbrev signing : Codec
signing = record codec { create_token = create_token jwt key 1000 }

abbrev number : Bytes
number = codes "79927398713"

abbrev row : UserRow
row = record { name = number; password = stored_password hmac [] number; user_id = 1 }

abbrev with_row : World
with_row = record world { tables = record world.tables { users = row ∷ [] } }

abbrev cookie : Bytes
cookie = 4600 ∷ 1000 ∷ 1 ∷ 11 ∷ codes "1" ++ (number ++ codes "gophermart")

abbrev ask : Request
ask = request application_json_content no_token

logged_in : (main_page_login signing hmac [] ask with_row).0.cookie ≡ some cookie
unfolding main_page_login login_user get_user query select_user stored_password encode_to_string
    hash_pass create_token format_uint jwt
logged_in = refl

balance_route : new_router "GET" "/api/user/balance" ≡ some (guarded get_balance)
unfolding new_router
balance_route = refl

serve-main_page_login_example :
    (l : LoggedIn signing hmac [] ask with_row cookie) × (let as_user = record ask {
      claims = subject (format_uint l.row.user_id);
    } in
      (serve jwt key signing hmac [] 4599 "GET" "/api/user/balance" (some cookie) ask world
        ≡ page signing hmac [] get_balance as_user world)
      × (test_token as_user ≡ claimed (format_uint l.row.user_id)))
serve-main_page_login_example =
    serve-main_page_login jwt key signing hmac [] 1000 4599 ask ask with_row world cookie "GET"
      "/api/user/balance" get_balance (λ id name. refl) logged_in (omega arith) (omega arith)
      balance_route
