-- ===== src/Session.antt =====
-- Tokens and routes: `createToken` and `newRouter` of internal/gophermart/handlers/handlers.go, with
-- `jwtauth.Verifier` and `jwtauth.Authenticator` before the handlers that need a user.
pub mod Login
use gomart.Prelude.{
  ℕ, ◌+◌, ◌*◌, ◌<◌, ◌≤◌, ◌≡◌, String, Bool, ◌&&◌, Option, none, some, List, [], ◌∷◌, Bytes, codes,
  if◌then◌else◌, str_eq,
}
use gomart.Password.{Hmac}
use gomart.Conn.{World}
use gomart.Handlers.{
  Subject, subject, Request, Response, http_error, write_header, Page, main_page,
  text_plain_content_charset,
}
use gomart.Handlers.Pages.{Codec}
use gomart.System.{
  Route, post_orders, get_orders, get_withdrawals, get_balance, post_withdraw, register, login,
  page,
}

-- `jwt.MapClaims` of `createToken`; the times are in seconds.
pub record Claims : Type 0 where
  pub sub : Bytes
  pub name : Bytes
  pub iss : Bytes
  pub exp : ℕ
  pub iat : ℕ

-- `golang-jwt` and `jwtauth` with HS256: a token that was signed with the key is verified by it from
-- the time of issue that it names until it expires. `refusal` is the text with which `Authenticator` answers 401.
pub record Jwt : Type 0 where
  pub sign : Bytes → Claims → Option Bytes
  pub verify : Bytes → ℕ → Bytes → Option Claims
  pub refusal : String
  pub verify-sign :
      (key : Bytes) (claims : Claims) (token : Bytes) (now : ℕ)
      → sign key claims ≡ some token
      → claims.iat ≤ now
      → now < claims.exp
      → verify key now token ≡ some claims

abbrev pub hour : ℕ
hour = 60 * 60

abbrev pub new_claims : ℕ → Bytes → Bytes → Claims
new_claims now username_id name = record {
  sub = username_id;
  name = name;
  iss = codes "gophermart";
  exp = now + hour;
  iat = now;
}

unfoldable pub create_token : Jwt → Bytes → ℕ → Bytes → Bytes → Option Bytes
create_token jwt key now username_id name = jwt.sign key (new_claims now username_id name)

-- Where `newRouter` sends a request: behind the two `jwtauth` handlers, or not.
pub data Endpoint : Type 0 where
  guarded open_ : Route → Endpoint
  main : Endpoint

abbrev get : String
get = "GET"

abbrev post : String
post = "POST"

unfoldable pub new_router : String → String → Option Endpoint
new_router method path =
    if str_eq method post && str_eq path "/api/user/orders"
    then some (guarded post_orders)
    else if str_eq method get && str_eq path "/api/user/orders"
    then some (guarded get_orders)
    else if str_eq method get && str_eq path "/api/user/withdrawals"
    then some (guarded get_withdrawals)
    else if str_eq method get && str_eq path "/api/user/balance"
    then some (guarded get_balance)
    else if str_eq method post && str_eq path "/api/user/balance/withdraw"
    then some (guarded post_withdraw)
    else if str_eq method get && str_eq path "/"
    then some main
    else if str_eq method post && str_eq path "/api/user/register"
    then some (open_ register)
    else if str_eq method post && str_eq path "/api/user/login"
    then some (open_ login)
    else none

module _ (jwt : Jwt) (key : Bytes) where
  -- `jwtauth.Verifier` on the token of the request, if it has one.
  unfoldable pub verified : ℕ → Option Bytes → Option Claims
  verified now none = none
  verified now (some token) = jwt.verify key now token

  module _ (codec : Codec) (hmac : Hmac) (key_sig : Bytes) where
    abbrev pub authenticated : Route → Request → Option Claims → Page
    authenticated route req none w = (http_error jwt.refusal 401, w)
    authenticated route req (some claims) w =
        page codec hmac key_sig route (record req { claims = subject claims.sub }) w

    abbrev pub routed : ℕ → Option Bytes → Request → Option Endpoint → Page
    routed now token req none w = (http_error "404 page not found" 404, w)
    routed now token req (some main) w = (main_page req, w)
    routed now token req (some (open_ route)) w = page codec hmac key_sig route req w
    routed now token req (some (guarded route)) w = authenticated route req (verified now token) w

    -- A request at a time, with its method, path and token.
    unfoldable pub serve : ℕ → String → String → Option Bytes → Request → Page
    serve now method path token req = routed now token req (new_router method path)
