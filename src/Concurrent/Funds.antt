-- ===== src/Concurrent/Funds.antt =====
-- What the withdrawals that run leave of the balances, where no two of one user run at the same time.
use gomart.Prelude.{
  ℕ, ◌≡◌, ◌≢◌, refl, Bool-cases, Option-cases, inl, inr, false, Option, none, some, List, ◌==◌,
  arith,
}
use gomart.Prelude.Int.{pos, ◌≤ℤ◌, int_laws}
use gomart.Store.{Withdraw, is_less}
use gomart.Tables.{of_user, select_balance, fits_bigint}
use gomart.Tables.Rows.{BalanceRow, Tables, find}
use gomart.PgStore.{scanned_or_zero}
use gomart.PgStore.Withdrawal.{current_of}
use gomart.Ledger.Withdrawals.{is_less-cents}
use gomart.Ledger.Sound.{IsSound}
use gomart.Concurrent.{
  Session, idle, reading, debiting, recording, ending, view, put_balances, Db, quiet, update_at,
}

-- The user whose withdrawal it is.
abbrev pub session_user : Session → Option ℕ
session_user idle = none
session_user (reading w) = some w.user_id
session_user (debiting w) = some w.user_id
session_user (recording w row) = some w.user_id
session_user (ending w row drawn) = some w.user_id

-- No withdrawal of the user runs.
abbrev pub Alone : Db → Withdraw → Type 0
Alone db w = (j : ℕ) → session_user (db.sessions j) ≢ some w.user_id

-- The sum and what is left when the call ends are not negative.
abbrev pub IsFunded : List BalanceRow → Session → Type 0
IsFunded rows idle = Unit
IsFunded rows (reading w) = Unit
IsFunded rows (debiting w) = w.sum.cents ≤ℤ current_of w.user_id rows
IsFunded rows (recording w row) = (pos 0 ≤ℤ w.sum.cents) × (pos 0 ≤ℤ row.current)
IsFunded rows (ending w row drawn) = (pos 0 ≤ℤ w.sum.cents) × (pos 0 ≤ℤ row.current)

abbrev pub AreAlone : (ℕ → Session) → Type 0
AreAlone sessions =
    (i j id : ℕ) → i ≢ j → session_user (sessions i) ≡ some id → session_user (sessions j) ≢ some id

pub record IsCovered (db : Db) : Type 0 where
  pub covered : (id : ℕ) → pos 0 ≤ℤ current_of id db.tables.balances
  pub alone : AreAlone db.sessions
  pub funded : (i : ℕ) → IsFunded db.tables.balances (db.sessions i)

pub quiet-IsCovered : (t : Tables) → IsSound t → IsCovered (quiet t)
quiet-IsCovered t s = record {
  covered = s.books.covered;
  alone = λ i j id ne l. cc;
  funded = λ i. tt;
}

pub AreAlone-update_at :
    (i : ℕ) (s : Session) (sessions : ℕ → Session)
    → ((j id : ℕ) → j ≢ i → session_user s ≡ some id → session_user (sessions j) ≢ some id)
    → AreAlone sessions
    → AreAlone (update_at i s sessions)
AreAlone-update_at i s sessions new old a b id ne l k = elim (Bool-cases (a == i)) [
  | inl ai ↦ elim (Bool-cases (b == i)) [
    | inl bi ↦ ne (ground (arith, ai, bi))
    | inr bo ↦ new b id (ground (arith, bo)) (rw ai at l) (rw bo at k)
  ]
  | inr ao ↦ elim (Bool-cases (b == i)) [
    | inl bi ↦ new a id (ground (arith, ao)) (rw bi at k) (rw ao at l)
    | inr bo ↦ old a b id ne (rw ao at l) (rw bo at k)
  ]
]

-- The balance of a call's user grows, or is not touched.
pub IsFunded-grows :
    (rows rows' : List BalanceRow) (s : Session)
    → ((id : ℕ) → session_user s ≡ some id → current_of id rows ≤ℤ current_of id rows')
    → IsFunded rows s
    → IsFunded rows' s
IsFunded-grows rows rows' idle g f = tt
IsFunded-grows rows rows' (reading w) g f = tt
IsFunded-grows rows rows' (debiting w) g f = omega (int_laws, f, g w.user_id refl)
IsFunded-grows rows rows' (recording w row) g f = f
IsFunded-grows rows rows' (ending w row drawn) g f = f

pub read-funded :
    (w : Withdraw) (t : Tables)
    → pos 0 ≤ℤ current_of w.user_id t.balances
    → is_less (scanned_or_zero (select_balance w.user_id (view (reading w) t)).0).accrual w.sum
      ≡ false
    → w.sum.cents ≤ℤ current_of w.user_id t.balances
unfolding put_balances select_balance
read-funded w t covered enough = elim (Bool-cases (fits_bigint w.user_id)) [
  | inl fits ↦ elim (Option-cases (find (of_user w.user_id) t.balances)) [
    | inl missing ↦ rw missing (is_less-cents (pos 0) w.sum (rw (fits, missing) at enough))
    | inr (row, found) ↦ rw found (is_less-cents row.current w.sum (rw (fits, found) at enough))
  ]
  | inr large ↦
      let sum = is_less-cents (pos 0) w.sum (rw large at enough) in omega (int_laws, covered, sum)
]
