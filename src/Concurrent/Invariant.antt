-- ===== src/Concurrent/Invariant.antt =====
-- What holds of the database and of all that runs on it, kept by every step.
use gomart.Prelude.{ℕ, ◌≡◌, ◌≢◌, sym, ap, ◌∙◌, ◌⊎◌, none, some, All}
use gomart.Prelude.Int.{◌+ℤ◌, int_laws}
use gomart.Store.{Withdraw}
use gomart.Tables.{of_user}
use gomart.Tables.Rows.{BalanceRow, WithdrawalRow, Tables, find, put_balance}
use gomart.PgStore.Withdrawal.{current_of, withdrawn_of}
use gomart.Ledger.{total_accrual, total_sum}
use gomart.Ledger.Keys.{IsKeyed, Unpaid}
use gomart.Ledger.Sums.{current_of-put_balance, withdrawn_of-put_balance, total_sum-snoc}
use gomart.Concurrent.{
  Session, idle, recording, ending, view, put_balances, no_batch, Db, update_at, locked_user,
}
use gomart.Concurrent.Balances.{IsDebited, AddsUp, AddsUp-over}
use gomart.Concurrent.Orders.{AreAnswered}
use gomart.Concurrent.Calls.{
  IsCalling, IsCalling-put_balance, AreLocked, AreLocked-update_at, update_at-all,
}
use gomart.System.Invariant.{AreWaiting}

-- The books, but that a balance may be negative.
pub record IsAccounted (t : Tables) : Type 0 where
  pub spent : (id : ℕ) → withdrawn_of id t.balances ≡ total_sum id t.withdrawals
  pub earned :
      (id : ℕ) → current_of id t.balances +ℤ withdrawn_of id t.balances ≡ total_accrual id t.orders

pub record IsRunning (db : Db) : Type 0 where
  pub accounted : IsAccounted db.tables
  pub keyed : IsKeyed db.tables.orders
  pub unpaid : All Unpaid db.tables.orders
  pub calls : (i : ℕ) → IsCalling db.tables.balances (db.sessions i)
  pub locks : AreLocked db.sessions
  pub batch_locks :
      (i id : ℕ)
      → locked_user (db.sessions i) ≡ some id
      → find (of_user id) db.batch.balances ≡ none
  pub answered : AreAnswered db.tables.orders db.batch
  pub adds : AddsUp db.tables.balances db.batch
  pub sent : AreWaiting db.tables.orders db.sent
  pub one_round : (db.sent ≡ none) ⊎ (db.batch ≡ no_batch)

-- A call moves on, with no lock that it did not have.
pub move_on :
    (db : Db) (i : ℕ) (s : Session)
    → IsRunning db
    → IsCalling db.tables.balances s
    → ((id : ℕ) → locked_user s ≡ some id → locked_user (db.sessions i) ≡ some id)
    → IsRunning (record db { sessions = update_at i s db.sessions })
move_on db i s h c l = record {
  accounted = h.accounted;
  keyed = h.keyed;
  unpaid = h.unpaid;
  calls = update_at-all (IsCalling db.tables.balances) i s db.sessions c (λ j _. h.calls j);
  locks =
      AreLocked-update_at i s db.sessions (λ j id ne k. h.locks i j id (λ e. ne (sym e)) (l id k))
        h.locks;
  batch_locks = λ j id.
      update_at-all (λ x. locked_user x ≡ some id → find (of_user id) db.batch.balances ≡ none) i s
        db.sessions (λ k. h.batch_locks i id (l id k)) (λ j' _. h.batch_locks j' id) j;
  answered = h.answered;
  adds = h.adds;
  sent = h.sent;
  one_round = h.one_round;
}

-- A call locks the balance of a user that is free.
pub lock_balance :
    (db : Db) (i : ℕ) (w : Withdraw) (row : BalanceRow)
    → IsRunning db
    → IsDebited db.tables.balances w row
    → ((j : ℕ) → j ≢ i → locked_user (db.sessions j) ≢ some w.user_id)
    → find (of_user w.user_id) db.batch.balances ≡ none
    → IsRunning (record db { sessions = update_at i (recording w row) db.sessions })
lock_balance db i w row h c free batch_free = record {
  accounted = h.accounted;
  keyed = h.keyed;
  unpaid = h.unpaid;
  calls =
      update_at-all (IsCalling db.tables.balances) i (recording w row) db.sessions c
        (λ j _. h.calls j);
  locks =
      AreLocked-update_at i (recording w row) db.sessions (λ j id ne k l. free j ne (l ∙ sym k))
        h.locks;
  batch_locks = λ j id.
      update_at-all (λ x. locked_user x ≡ some id → find (of_user id) db.batch.balances ≡ none) i
        (recording w row) db.sessions
        (λ k. (let same : w.user_id ≡ id = cc in rw (← same) batch_free))
        (λ j' _. h.batch_locks j' id) j;
  answered = h.answered;
  adds = h.adds;
  sent = h.sent;
  one_round = h.one_round;
}

-- A withdrawal commits.
commit-IsAccounted :
    (t : Tables) (w : Withdraw) (row : BalanceRow) (drawn : WithdrawalRow)
    → IsDebited t.balances w row
    → drawn.user_id ≡ w.user_id
    → drawn.sum ≡ w.sum.cents
    → IsAccounted t
    → IsAccounted (view (ending w row drawn) t)
unfolding put_balances
commit-IsAccounted t w row drawn d u s a = record {
  spent = λ id.
      rw
        (
          withdrawn_of-put_balance id row t.balances,
          total_sum-snoc id t.withdrawals drawn,
          d.user,
          d.withdrawn,
          u,
          s,
        )
        (grind (int_laws, a.spent id, a.spent w.user_id));
  earned = λ id.
      rw
        (
          withdrawn_of-put_balance id row t.balances,
          current_of-put_balance id row t.balances,
          d.user,
          d.withdrawn,
          d.current,
        )
        (grind (int_laws, a.earned id, a.earned w.user_id));
}

pub commit-IsRunning :
    (db : Db) (i : ℕ) (w : Withdraw) (row : BalanceRow) (drawn : WithdrawalRow)
    → db.sessions i ≡ ending w row drawn
    → IsRunning db
    → IsRunning (record db {
      tables = view (db.sessions i) db.tables;
      sessions = update_at i idle db.sessions;
    })
unfolding put_balances
commit-IsRunning db i w row drawn e h =
    let c = rw e at (h.calls i) in
    let d : IsDebited db.tables.balances w row = c.0 in
    let own : locked_user (db.sessions i) ≡ some row.user_id =
      ap locked_user e ∙ ap some (sym d.user) in
    rw e (record {
      accounted = commit-IsAccounted db.tables w row drawn d c.1 c.2 h.accounted;
      keyed = h.keyed;
      unpaid = h.unpaid;
      calls =
          update_at-all (IsCalling (put_balance row db.tables.balances)) i idle db.sessions tt
            (λ j ne.
              IsCalling-put_balance row db.tables.balances (db.sessions j)
                (h.locks i j row.user_id (λ x. ne (sym x)) own) (h.calls j));
      locks = AreLocked-update_at i idle db.sessions (λ j id ne k. cc) h.locks;
      batch_locks = λ j id.
          update_at-all (λ x. locked_user x ≡ some id → find (of_user id) db.batch.balances ≡ none)
            i idle db.sessions (λ k. cc) (λ j' _. h.batch_locks j' id) j;
      answered = h.answered;
      adds = AddsUp-over db.tables.balances db.batch h.adds row (h.batch_locks i row.user_id own);
      sent = h.sent;
      one_round = h.one_round;
    })
