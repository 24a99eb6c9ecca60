-- ===== src/Service/Accounts.antt =====
-- Registration and login, `RegisterUser` and `LoginUser`.
use mathlib.Core.List.{append-nil}
use gomart.Prelude.{
  ◌+◌, ◌-◌, ◌≡◌, leb, length, take, take-append_length, sym, ◌≢◌, refl, ap, ◌∙◌, inl, inr, Bool,
  true, false, Bool-cases, Option-cases, none, some, List, [], ◌∷◌, ◌++◌, Bytes, is_empty, bytes_eq,
  bytes_eq_refl, eq_of_bytes_eq, if◌then◌else◌, ok, err, arith,
}
use gomart.Password.{Hmac, AreBytes, stored_password}
use gomart.Password.Recovery.{stored_password-injective}
use gomart.Uint.{format_uint}
use gomart.Tables.{no_rows, has_name, insert_user, stored_name, characters, select_user}
use gomart.Tables.Rows.{UserRow, Tables, find}
use gomart.Conn.{World, query}
use gomart.PgStore.{add_user, get_user}
use gomart.Service.{authentication_failed, store, UserRegistration, register_user, login_user}

find-snoc :
    {A : Type 0} (p : A → Bool) (xs : List A) (x : A)
    → find p xs ≡ none
    → p x ≡ true
    → find p (xs ++ x ∷ []) ≡ some x
find-snoc p [] x h e = rw e refl
find-snoc p (y ∷ xs) x h e = ground (arith, find-snoc p xs x)

-- A name that fits its column is stored as it is.
stored_name-short : (name : Bytes) → leb (characters name) 128 ≡ true → stored_name name ≡ name
unfolding stored_name
stored_name-short name short =
    let none_over : length name - (characters name - 128) ≡ length name = ground (arith, short) in
    rw none_over (ap (take (length name)) (sym (append-nil name)) ∙ take-append_length name [])

module _ (hmac : Hmac) (key : Bytes) where
  abbrev user_row : UserRegistration → Tables → UserRow
  user_row user t = record {
    name = user.name;
    password = stored_password hmac key user.password;
    user_id = t.next_user;
  }

  -- The world after a registration.
  abbrev with_user : UserRegistration → World → World
  with_user user w = record {
    tables = record w.tables {
      users = w.tables.users ++ user_row user w.tables ∷ [];
      next_user = w.tables.next_user + 1;
    };
    net = [];
  }

  pub record Registered (user : UserRegistration) (w : World) (id : Bytes) (w' : World)
      : Type 0 where
    pub number : id ≡ format_uint w.tables.next_user
    pub new_name : find (has_name user.name) w.tables.users ≡ none
    pub given : is_empty user.name ≡ false
    pub secret : is_empty user.password ≡ false
    pub stored : w' ≡ with_user user w

  register_user-Registered :
      (user : UserRegistration) (w : World) (id : Bytes) (w' : World)
      → w.net ≡ []
      → leb (characters user.name) 128 ≡ true
      → register_user hmac key user w ≡ (ok id, w')
      → Registered user w id w'
  unfolding register_user add_user query insert_user
  register_user-Registered user w id w' n short e =
      let same = stored_name-short user.name short in
      elim (Option-cases (find (has_name user.name) w.tables.users)) [
        | inl free ↦ record {
          number = ground arith;
          new_name = free;
          given = ground arith;
          secret = ground arith;
          stored = ground arith;
        }
        | inr (row, taken) ↦ absurd (ground arith)
      ]

  login_user-known :
      (user : UserRegistration) (w : World) (row : UserRow)
      → w.net ≡ []
      → is_empty user.name ≡ false
      → is_empty user.password ≡ false
      → find (has_name user.name) w.tables.users ≡ some row
      → login_user hmac key user w ≡ (
        (if bytes_eq (stored_password hmac key user.password) row.password
            then ok (format_uint row.user_id)
            else err authentication_failed),
        w,
      )
  unfolding login_user get_user query select_user
  login_user-known user w row n given pass found = ground arith

  -- The user's row is found again.
  Registered-found :
      (user : UserRegistration) (w : World)
      → find (has_name user.name) w.tables.users ≡ none
      → find (has_name user.name) (with_user user w).tables.users ≡ some (user_row user w.tables)
  Registered-found user w free =
      find-snoc (has_name user.name) w.tables.users (user_row user w.tables) free
        (bytes_eq_refl user.name)

  login_with :
      (user : UserRegistration) (password : Bytes) (w : World) (id : Bytes) (w' : World)
      → w.net ≡ []
      → leb (characters user.name) 128 ≡ true
      → register_user hmac key user w ≡ (ok id, w')
      → is_empty password ≡ false
      → login_user hmac key (record { name = user.name; password = password }) w' ≡ (
        (if bytes_eq (stored_password hmac key password) (stored_password hmac key user.password)
            then ok id
            else err authentication_failed),
        w',
      )
  login_with user password w id w' n short e pass =
      let r = register_user-Registered user w id w' n short e in
      let login = login_user hmac key (record { name = user.name; password = password }) in
      let known =
        login_user-known (record { name = user.name; password = password }) (with_user user w)
          (user_row user w.tables) refl r.given pass (Registered-found user w r.new_name) in
      ap login r.stored ∙ known ∙ rw (r.stored, r.number) refl

  -- With no fault on the way, a user with a name of at most 128 characters whose registration
  -- returned a number can log in with the same password, gets the same number, and the login changes
  -- nothing.
  pub login_user-register_user :
      (user : UserRegistration) (w : World) (id : Bytes) (w' : World)
      → w.net ≡ []
      → leb (characters user.name) 128 ≡ true
      → register_user hmac key user w ≡ (ok id, w')
      → login_user hmac key user w' ≡ (ok id, w')
  login_user-register_user user w id w' n short e =
      let r = register_user-Registered user w id w' n short e in
      login_with user user.password w id w' n short e r.secret
      ∙ rw (bytes_eq_refl (stored_password hmac key user.password)) refl

  -- With no fault on the way, after a registration that returned a number for a name of at most 128
  -- characters, a login with another password, not empty, is refused and changes nothing.
  pub login_user-wrong_password :
      (user : UserRegistration) (password : Bytes) (w : World) (id : Bytes) (w' : World)
      → w.net ≡ []
      → leb (characters user.name) 128 ≡ true
      → AreBytes user.password
      → AreBytes password
      → password ≢ user.password
      → is_empty password ≡ false
      → register_user hmac key user w ≡ (ok id, w')
      → login_user hmac key (record { name = user.name; password = password }) w'
        ≡ (err authentication_failed, w')
  login_user-wrong_password user password w id w' n short hp hq ne pass e =
      elim (Bool-cases
        (bytes_eq (stored_password hmac key password) (stored_password hmac key user.password))) [
          | inl same ↦ absurd (
              ne (
                stored_password-injective hmac key password user.password hq hp
                  (eq_of_bytes_eq _ _ same)))
          | inr differ ↦ login_with user password w id w' n short e pass ∙ rw differ refl
        ]

  -- A name that is taken as the column stores it cannot be registered again, whatever breaks on the way: the call returns
  -- an error, and the users stay as they are.
  pub register_user-taken :
      (user : UserRegistration) (w : World) (row : UserRow)
      → find (has_name (stored_name user.name)) w.tables.users ≡ some row
      → ((id : Bytes) → (register_user hmac key user w).0 ≢ ok id)
        × ((register_user hmac key user w).1.tables.users ≡ w.tables.users)
  unfolding register_user add_user query insert_user
  register_user-taken user w row taken = ((λ id e. ground arith), ground arith)

  -- With no fault on the way, who logs in with a name that nobody has registered and a password,
  -- neither empty, gets the database's "no rows", and not the refusal that the service means:
  -- `GetUser` does not turn it into `ErrRowNotFound`.
  pub login_user-unknown :
      (user : UserRegistration) (w : World)
      → w.net ≡ []
      → is_empty user.name ≡ false
      → is_empty user.password ≡ false
      → find (has_name user.name) w.tables.users ≡ none
      → login_user hmac key user w ≡ (err (store no_rows), w)
  unfolding login_user get_user query select_user
  login_user-unknown user w n given pass free = ground arith
