-- ===== src/Examples/Users.antt =====
-- Registration, login, stored passwords and the start of the pool on sample data.
use gomart.Prelude.{
  ℕ, ◌≡◌, ◌≢◌, ◌<◌, refl, Bool, false, [], ◌∷◌, codes, Bytes, arith, Option, none, some, ok, err,
  ltb, ◌==◌, ◌-◌, ◌≤◌, if◌then◌else◌,
}
use gomart.Password.{encode_to_string, hash_pass, stored_password, AreBytes}
use gomart.Password.Recovery.{recover, recover-stored_password}
use gomart.Retry.{succeeded, retry_times, retry_action, should_continue}
use gomart.PgStore.Start.{start, start-bounds}
use gomart.Retry.Bounds.{sum}
use gomart.Retry.Attempts.{Retryable, retry_action-succeeded}
use gomart.Tables.{insert_user, stored_name, fits_varchar, has_name}
use gomart.Tables.Rows.{UserRow, find}
use gomart.Uint.{format_uint}
use gomart.Conn.{World, query, unanswered}
use gomart.PgStore.{add_user}
use gomart.Service.{UserRegistration, authentication_failed, register_user, login_user}
use gomart.Service.Accounts.{
  login_user-register_user, login_user-wrong_password, register_user-taken,
}
use gomart.Examples.{hmac, world}

abbrev key : Bytes
key = codes "key"

abbrev alice : UserRegistration
alice = record { name = codes "alice"; password = codes "secret" }

abbrev wrong : Bytes
wrong = codes "guess"

abbrev registered : World
registered = (register_user hmac key alice world).1

alice-registered : register_user hmac key alice world ≡ (ok (format_uint 3), registered)
unfolding register_user add_user query insert_user stored_name fits_varchar stored_password
    encode_to_string hash_pass
alice-registered = refl

secret-AreBytes : AreBytes (codes "secret")
secret-AreBytes =
    (omega arith, (omega arith, (omega arith, (omega arith, (omega arith, (omega arith, tt))))))

guess-AreBytes : AreBytes wrong
guess-AreBytes = (omega arith, (omega arith, (omega arith, (omega arith, (omega arith, tt)))))

recover-stored_password_example :
    recover (stored_password hmac key (codes "secret")) ≡ codes "secret"
recover-stored_password_example = recover-stored_password hmac key (codes "secret") secret-AreBytes

login_user-register_user_example :
    login_user hmac key alice registered ≡ (ok (format_uint 3), registered)
login_user-register_user_example =
    login_user-register_user hmac key alice world (format_uint 3) registered refl refl
      alice-registered

login_user-wrong_password_example :
    login_user hmac key (record { name = codes "alice"; password = wrong }) registered
    ≡ (err authentication_failed, registered)
login_user-wrong_password_example =
    login_user-wrong_password hmac key alice wrong world (format_uint 3) registered refl refl
      secret-AreBytes guess-AreBytes (λ e. ground (arith, e)) refl alice-registered

abbrev alice_row : UserRow
alice_row = record { name = codes "alice"; password = codes "00"; user_id = 7 }

abbrev taken : World
taken = record world {
  tables = record world.tables { users = alice_row ∷ [] };
  net = unanswered ∷ [];
}

alice-taken : find (has_name (stored_name alice.name)) taken.tables.users ≡ some alice_row
unfolding stored_name
alice-taken = refl

register_user-taken_example :
    ((id : Bytes) → (register_user hmac key alice taken).0 ≢ ok id)
    × ((register_user hmac key alice taken).1.tables.users ≡ taken.tables.users)
register_user-taken_example = register_user-taken hmac key alice taken alice_row alice-taken

-- The database answers the third attempt to connect.
abbrev connect : ℕ → Option ℕ
connect i = if ltb i 2 then some 57 else none

abbrev no_connection : ℕ → Option ℕ
no_connection i = some 57

abbrev not_done : ℕ → Bool
not_done i = false

connect-Retryable : (j : ℕ) → j < 2 → Retryable connect not_done [] j
unfolding should_continue
connect-Retryable j h = record { err = 57; not_done = refl; returned = ground arith; probed = refl }

retry_action-succeeded_example :
    retry_action connect not_done [] retry_times
    ≡ record { outcome = succeeded; calls = 3; slept = 1000 ∷ 3000 ∷ [] }
retry_action-succeeded_example =
    retry_action-succeeded connect not_done [] 2 retry_times (omega arith) connect-Retryable refl
      refl

no_connection-Retryable : (j : ℕ) → j < 3 → Retryable no_connection not_done [] j
unfolding should_continue
no_connection-Retryable j h = record { err = 57; not_done = refl; returned = refl; probed = refl }

-- The pool opens at once, and the database has no connection to give at the first ping.
abbrev opens : ℕ → Option ℕ
opens i = none

abbrev answers : ℕ → Option ℕ
answers i = if ltb i 1 then some 8006 else none

start-bounds_example :
    let s = start (λ e. some e) (λ code. code == 8006) opens not_done answers not_done in
    (s.opened ≤ 4)
    × (s.pinged ≤ 4)
    × (sum s.slept ≤ 18000)
    × (s.outcome ≡ succeeded → (opens (s.opened - 1) ≡ none) × (answers (s.pinged - 1) ≡ none))
start-bounds_example =
    start-bounds (λ e. some e) (λ code. code == 8006) opens not_done answers not_done
