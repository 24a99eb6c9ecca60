-- ===== src/Session/Login.antt =====
-- Whom the cookie of a login stands for.
use gomart.Prelude.{
  ℕ, ◌+◌, ◌<◌, ◌≤◌, ◌≡◌, refl, sym, ap, ◌∙◌, true, false, inl, inr, Option-cases, some, Bytes,
  String, is_empty, bytes_eq, ok, Result-cases, arith,
}
use gomart.Password.{Hmac, stored_password}
use gomart.Uint.{format_uint}
use gomart.Uint.RoundTrip.{format_uint-is_empty}
use gomart.Tables.{has_name, select_user}
use gomart.Tables.Rows.{UserRow, find}
use gomart.Conn.{World, query}
use gomart.PgStore.{get_user}
use gomart.Service.{UserRegistration, login_user}
use gomart.Handlers.{Request, claimed, test_token, subject}
use gomart.Handlers.Pages.{Codec, from_json, main_page_login}
use gomart.Session.{
  Jwt, hour, new_claims, create_token, verified, guarded, new_router, serve, routed, authenticated,
}
use gomart.System.{Route, page}

module _ (codec : Codec) (hmac : Hmac) (key_sig : Bytes) where
  -- The user of a login, and the row that the users table has for it.
  pub record LoggedIn (req : Request) (w : World) (token : Bytes) : Type 0 where
    pub user : UserRegistration
    pub row : UserRow
    pub sent : from_json codec.decode_user req.body ≡ some user
    pub found : find (has_name user.name) w.tables.users ≡ some row
    pub password : bytes_eq (stored_password hmac key_sig user.password) row.password ≡ true
    pub signed : codec.create_token (format_uint row.user_id) user.name ≡ some token

  login_user-ok :
      (user : UserRegistration) (w : World) (id : Bytes)
      → (login_user hmac key_sig user w).0 ≡ ok id
      → (row : UserRow) × (find (has_name user.name) w.tables.users ≡ some row)
        × (bytes_eq (stored_password hmac key_sig user.password) row.password ≡ true)
        × (id ≡ format_uint row.user_id)
  unfolding login_user get_user query select_user
  login_user-ok user w id e = elim (Option-cases (find (has_name user.name) w.tables.users)) [
    | inl nobody ↦ absurd (ground arith)
    | inr (row, found) ↦ (row, found, ground arith, ground arith)
  ]

  main_page_login-cookie :
      (req : Request) (w : World) (token : Bytes)
      → (main_page_login codec hmac key_sig req w).0.cookie ≡ some token
      → LoggedIn req w token
  unfolding main_page_login
  main_page_login-cookie req w token e =
      elim (Option-cases (from_json codec.decode_user req.body)) [
        | inl bad ↦ absurd (ground arith)
        | inr (user, sent) ↦ elim (Result-cases (login_user hmac key_sig user w).0) [
          | inl (x, failed) ↦ absurd (ground arith)
          | inr (id, logged) ↦
              let (row, found, password, same) = login_user-ok user w id logged in
              record {
                user = user;
                row = row;
                sent = sent;
                found = found;
                password = password;
                signed = ground arith;
              }
        ]
      ]

test_token-subject :
    (req : Request) (id : Bytes)
    → req.claims ≡ subject id
    → is_empty id ≡ false
    → test_token req ≡ claimed id
unfolding test_token
test_token-subject req id e n = ground arith

module _ (jwt : Jwt) (key : Bytes) (codec : Codec) (hmac : Hmac) (key_sig : Bytes) where
  -- Where the handlers sign tokens by `createToken`, the cookie that a login sets stands for the user
  -- whose name and password were sent: from then on and for less than an hour, a request with it to a path that
  -- needs a user is passed to that path's handler, which takes it for a request of the user's number.
  pub serve-main_page_login :
      (now later : ℕ) (req next_req : Request) (w w' : World) (token : Bytes) (method path : String)
      (route : Route)
      → ((id name : Bytes) → codec.create_token id name ≡ create_token jwt key now id name)
      → (main_page_login codec hmac key_sig req w).0.cookie ≡ some token
      → now ≤ later
      → later < now + hour
      → new_router method path ≡ some (guarded route)
      → (l : LoggedIn codec hmac key_sig req w token) × (let as_user = record next_req {
        claims = subject (format_uint l.row.user_id);
      } in
          (serve jwt key codec hmac key_sig later method path (some token) next_req w'
            ≡ page codec hmac key_sig route as_user w')
          × (test_token as_user ≡ claimed (format_uint l.row.user_id)))
  unfolding serve verified create_token
  serve-main_page_login now later req next_req w w' token method path route signs cookie after_it
        soon routed_ =
      let l = main_page_login-cookie codec hmac key_sig req w token cookie in
      let id = format_uint l.row.user_id in
      let signed = sym (signs id l.user.name) ∙ l.signed in
      let known : jwt.verify key later token ≡ some (new_claims now id l.user.name) =
        jwt.verify-sign key (new_claims now id l.user.name) token later signed after_it soon in
      (
        l,
        (
          ap (λ e. routed jwt key codec hmac key_sig later (some token) next_req e w') routed_
              ∙ ap (λ c. authenticated jwt key codec hmac key_sig route next_req c w') known,
          test_token-subject _ id refl (format_uint-is_empty l.row.user_id),
        ),
      )
