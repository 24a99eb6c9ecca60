-- ===== src/Concurrent/Calls.antt =====
-- What holds of the calls of `InsertWithdraw` that run, and of their locks.
use gomart.Prelude.{
  ℕ, ◌≡◌, ◌≢◌, refl, sym, ap, ◌∙◌, Bool-cases, inl, inr, none, some, List, ◌==◌, arith,
}
use gomart.Prelude.Int.{pos, ◌≤ℤ◌}
use gomart.Store.{Withdraw}
use gomart.Tables.{of_user}
use gomart.Tables.Keys.{find-put_balance}
use gomart.Tables.Rows.{BalanceRow, find, put_balance}
use gomart.Concurrent.{
  Session, idle, reading, debiting, recording, ending, put_balances, update_at, locked_user,
}
use gomart.Concurrent.Versions.{find-put_balances_free}
use gomart.Concurrent.Balances.{
  IsDebited, IsDebited-same, IsDebitable, IsDebitable-put_balance, IsDebitable-put_balances,
}

abbrev pub IsCalling : List BalanceRow → Session → Type 0
IsCalling rows idle = Unit
IsCalling rows (reading w) = pos 0 ≤ℤ w.sum.cents
IsCalling rows (debiting w) = (pos 0 ≤ℤ w.sum.cents) × IsDebitable rows w
IsCalling rows (recording w row) = IsDebited rows w row
IsCalling rows (ending w row drawn) =
    IsDebited rows w row × (drawn.user_id ≡ w.user_id) × (drawn.sum ≡ w.sum.cents)

-- Other transactions commit, and leave the row alone that the call has written.
IsCalling-same :
    (rows rows' : List BalanceRow) (s : Session)
    → ((w : Withdraw) → IsDebitable rows w → IsDebitable rows' w)
    → ((id : ℕ) → locked_user s ≡ some id → find (of_user id) rows' ≡ find (of_user id) rows)
    → IsCalling rows s
    → IsCalling rows' s
IsCalling-same rows rows' idle d e h = tt
IsCalling-same rows rows' (reading w) d e h = h
IsCalling-same rows rows' (debiting w) d e h = (h.0, d w h.1)
IsCalling-same rows rows' (recording w row) d e h =
    IsDebited-same rows rows' w row (e w.user_id refl) h
IsCalling-same rows rows' (ending w row drawn) d e h =
    (IsDebited-same rows rows' w row (e w.user_id refl) h.0, h.1, h.2)

pub IsCalling-put_balance :
    (row : BalanceRow) (rows : List BalanceRow) (s : Session)
    → locked_user s ≢ some row.user_id
    → IsCalling rows s
    → IsCalling (put_balance row rows) s
IsCalling-put_balance row rows s free =
    IsCalling-same rows (put_balance row rows) s (λ w. IsDebitable-put_balance rows w row)
      (λ id l. find-put_balance id row rows ∙ (elim (Bool-cases (row.user_id == id)) [
        | inl own ↦
            let same : row.user_id ≡ id = ground arith in absurd (free (l ∙ ap some (sym same)))
        | inr other ↦ rw other refl
      ]))

pub IsCalling-put_balances :
    (bs rows : List BalanceRow) (s : Session)
    → ((id : ℕ) → locked_user s ≡ some id → find (of_user id) bs ≡ none)
    → IsCalling rows s
    → IsCalling (put_balances bs rows) s
IsCalling-put_balances bs rows s free =
    IsCalling-same rows (put_balances bs rows) s (λ w. IsDebitable-put_balances bs rows w)
      (λ id l. find-put_balances_free id bs rows (free id l))

-- What holds of every call holds when one of them has moved on.
pub update_at-all :
    (P : Session → Type 0) (i : ℕ) (s : Session) (sessions : ℕ → Session)
    → P s
    → ((j : ℕ) → j ≢ i → P (sessions j))
    → (j : ℕ) → P (update_at i s sessions j)
update_at-all P i s sessions p h j = elim (Bool-cases (j == i)) [
  | inl own ↦ rw own p
  | inr other ↦ rw other (h j (ground arith))
]

-- No two calls have written the same balance.
abbrev pub AreLocked : (ℕ → Session) → Type 0
AreLocked sessions =
    (i j id : ℕ) → i ≢ j → locked_user (sessions i) ≡ some id → locked_user (sessions j) ≢ some id

pub AreLocked-update_at :
    (i : ℕ) (s : Session) (sessions : ℕ → Session)
    → ((j id : ℕ) → j ≢ i → locked_user s ≡ some id → locked_user (sessions j) ≢ some id)
    → AreLocked sessions
    → AreLocked (update_at i s sessions)
AreLocked-update_at i s sessions new old a b id ne l k = elim (Bool-cases (a == i)) [
  | inl ai ↦ elim (Bool-cases (b == i)) [
    | inl bi ↦ ne (ground (arith, ai, bi))
    | inr bo ↦ new b id (ground (arith, bo)) (rw ai at l) (rw bo at k)
  ]
  | inr ao ↦ elim (Bool-cases (b == i)) [
    | inl bi ↦ new a id (ground (arith, ao)) (rw bi at k) (rw ao at l)
    | inr bo ↦ old a b id ne (rw ao at l) (rw bo at k)
  ]
]
