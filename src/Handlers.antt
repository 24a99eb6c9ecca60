-- ===== src/Handlers.antt =====
-- The HTTP handlers, internal/gophermart/handlers/handlers.go.
pub mod Pages
pub mod Statuses
pub mod Access
use gomart.Prelude.{
  ℕ, String, Bool, ◌||◌, not, Option, none, some, List, [], ◌∷◌, ◌++◌, Bytes, codes, is_empty,
  if◌then◌else◌, str_eq, Result, ok, err,
}
use gomart.Password.{Hmac}
use gomart.Conn.{World}
use gomart.Service
use gomart.Service.{
  ServiceError, authentication_failed, bad_pass, bad_value, order_already_loaded,
  order_already_loaded_other_user, not_enough, UserRegistration, Order, Balance, Withdraw,
}

abbrev pub text_html_content : String
text_html_content = "text/html"

abbrev pub application_json_content : String
application_json_content = "application/json"

abbrev pub text_plain_content : String
text_plain_content = "text/plain"

abbrev pub text_plain_content_charset : String
text_plain_content_charset = "text/plain; charset=utf-8"

-- What `jwtauth.FromContext` holds: no token, a token whose claim "sub" is missing or no text, or
-- the text of that claim.
pub data Subject : Type 0 where
  no_token no_subject : Subject
  subject : Bytes → Subject

-- `body` is what the request's body reads as, or `none` where reading it fails.
pub record Request : Type 0 where
  pub content_type : String
  pub accept : String
  pub url : String
  pub claims : Subject
  pub body : Option Bytes

-- `cookie` is the value of the cookie "jwt".
pub record Response : Type 0 where
  pub status : ℕ
  pub content_type : Option String
  pub cookie : Option Bytes
  pub body : Bytes

-- `http.Error`
abbrev pub http_error : String → ℕ → Response
http_error message code = record {
  status = code;
  content_type = some text_plain_content_charset;
  cookie = none;
  body = codes message ++ 10 ∷ [];
}

-- `res.WriteHeader(code)` and nothing more.
abbrev pub write_header : ℕ → Response
write_header code = record { status = code; content_type = none; cookie = none; body = [] }

-- `switch req.Header.Get("Accept")`
unfoldable pub negotiated : String → String
negotiated accept =
    if str_eq accept text_html_content
    then text_html_content
    else if str_eq accept application_json_content
    then application_json_content
    else text_plain_content_charset

-- The claim that a handler gets, an error, or the panic of `claims["sub"].(string)`, which
-- `middleware.Recoverer` answers by 500.
pub data Token : Type 0 where
  refused panics : Token
  claimed : Bytes → Token

unfoldable pub test_token : Request → Token
test_token req = elim req.claims [
  | no_token ↦ refused
  | no_subject ↦ panics
  | subject s ↦ if is_empty s then refused else claimed s
]

abbrev pub unauthorized : Response
unauthorized = http_error "Unauthorized access!" 401

abbrev pub Page : Type 0
Page = World → Response × World

unfoldable pub with_user : Request → (Bytes → Page) → Page
unfolding test_token
with_user req page w = elim (test_token req) [
  | refused ↦ (unauthorized, w)
  | panics ↦ (write_header 500, w)
  | claimed s ↦ page s w
]

abbrev pub withdraw_status : ServiceError → ℕ
withdraw_status bad_value = 422
withdraw_status not_enough = 402
withdraw_status _ = 500

abbrev pub order_status : ServiceError → ℕ
order_status order_already_loaded_other_user = 409
order_status bad_value = 422
order_status order_already_loaded = 200
order_status _ = 500

abbrev pub register_status : ServiceError → ℕ
register_status authentication_failed = 409
register_status bad_pass = 400
register_status _ = 500

abbrev pub login_status : ServiceError → ℕ
login_status authentication_failed = 401
login_status bad_pass = 400
login_status _ = 500

abbrev pub bad_content : Response
bad_content = http_error "Bad content type" 400

-- A text in the negotiated content type.
abbrev pub typed : Request → ℕ → Response
typed req code = record {
  status = code;
  content_type = some (negotiated req.accept);
  cookie = none;
  body = [];
}

-- The content type is set before the service is called, so errors carry it too.
abbrev order_response : Request → Result ServiceError (Unit {0}) → Response
order_response req (ok _) = typed req 202
order_response req (err e) = typed req (order_status e)

unfoldable pub main_page_post_order : Request → Page
unfolding with_user
main_page_post_order req w =
    if not (str_eq req.content_type text_plain_content)
    then (bad_content, w)
    else with_user req
        (λ user_id w₁. elim req.body [
          | none ↦ (http_error "Error reading request body" 500, w₁)
          | some body ↦
              let (r, w₂) = Service.register_order user_id body w₁ in (order_response req r, w₂)
        ])
        w

unfoldable pub main_page : Request → Response
main_page req =
    if str_eq req.url "" || str_eq req.url "/"
    then record {
      status = 200;
      content_type = some (negotiated req.accept);
      cookie = none;
      body = codes "Server Started";
    }
    else http_error "Bad request" 400
