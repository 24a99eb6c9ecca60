-- ===== src/Concurrent/Accounts.antt =====
-- What the transactions do to the accounts of the users is what the abstract ones allow.
use mathlib.Core.Path.{fun_ext}
use gomart.Prelude.{◌≡◌, refl, subst, Bool-cases, inl, inr, ◌==◌, Bytes, Bool, [], some}
use gomart.Prelude.Int.{pos, ◌+ℤ◌, ◌-ℤ◌, ◌≤ℤ◌, int_laws}
use gomart.Password.{Hmac}
use gomart.Store.{Withdraw}
use gomart.Tables.Rows.{BalanceRow, WithdrawalRow, Tables}
use gomart.Conn.{World}
use gomart.PgStore.Withdrawal.{current_of}
use gomart.Ledger.{total_accrual}
use gomart.Ledger.Sums.{current_of-put_balance, withdrawn_of-put_balance}
use gomart.Ledger.Sound.{IsSound}
use gomart.Ledger.Accounts.{Accounts, Move, spend, earn, Moves, unmoved, moved, accounts}
use gomart.Service
use gomart.Handlers.Pages.{Codec}
use gomart.Pool.{OrderAccrual}
use gomart.Accrual.Answers.{IsHonest}
use gomart.System.{page}
use gomart.Concurrent.{
  ending, view, put_balances, batch_view, Db, Step, Reach, quiet, begin, read, debit,
  record_withdrawal, commit, roll_back, fetch, begin_batch, give_up, update_row, update_nothing,
  increase, commit_batch, roll_back_batch, serve, passes, here, next,
}
use gomart.Concurrent.Balances.{IsDebited}
use gomart.Concurrent.Statements.{batch_view-current}
use gomart.Concurrent.Requests.{page-Keeps}
use gomart.Concurrent.Invariant.{IsRunning}
use gomart.Concurrent.Books.{quiet-IsRunning}
use gomart.Concurrent.Funds.{Alone, IsCovered, quiet-IsCovered}
use gomart.Concurrent.Alone.{Reach-IsCovered}

-- A withdrawal commits.
debited-Move :
    (t : Tables) (w : Withdraw) (row : BalanceRow) (drawn : WithdrawalRow)
    → IsDebited t.balances w row
    → pos 0 ≤ℤ w.sum.cents
    → pos 0 ≤ℤ row.current
    → Move (accounts t) (accounts (view (ending w row drawn) t))
unfolding put_balances
debited-Move t w row drawn d positive left =
    let current = d.current in
    let kept : pos 0 ≤ℤ current_of w.user_id t.balances -ℤ w.sum.cents = rw (← current) left in
    subst (Move (accounts t))
      (fun_ext (λ k.
        rw
          (
            current_of-put_balance k row t.balances,
            withdrawn_of-put_balance k row t.balances,
            d.user,
            d.current,
            d.withdrawn,
          )
          (elim (Bool-cases (w.user_id == k)) [
            | inl same ↦ rw same refl
            | inr other ↦ rw other refl
          ])))
      (spend w.user_id w.sum.cents positive (omega (int_laws, kept)))

-- The batch commits.
credited-Move :
    (db : Db)
    → IsRunning db
    → db.batch.queue ≡ []
    → Move (accounts db.tables) (accounts (batch_view db.batch db.tables))
credited-Move db h e =
    let grown = batch_view-current db.tables db.batch h.answered h.adds e in
    subst (Move (accounts db.tables)) (fun_ext (λ k. rw (grown k, h.adds.withdrawn k) refl)) (
      earn (λ k. total_accrual k db.batch.orders)
        (λ k.
          let same = grown k in
          let more = h.adds.grows k in
          let all : current_of k db.tables.balances
              ≤ℤ current_of k db.tables.balances +ℤ total_accrual k db.batch.orders =
            rw (← same) more in
          omega (int_laws, all)))

Moves-same : (t t' : Tables) → t'.balances ≡ t.balances → Moves (accounts t) (accounts t')
Moves-same t t' e = rw e unmoved

module _ (codec : Codec) (hmac : Hmac) (key_sig : Bytes)
    (decode : Bytes → OrderAccrual × Bool) where
  Step-Moves :
      (db db' : Db)
      → Step codec hmac key_sig decode Alone db db'
      → IsRunning db
      → IsCovered db
      → Moves (accounts db.tables) (accounts db'.tables)
  Step-Moves db _ (begin i body x w e decoded sum alone) r h = unmoved
  Step-Moves db _ (read i w e covered) r h = unmoved
  Step-Moves db _ (debit i started w row e free batch_free d) r h = unmoved
  Step-Moves db _ (record_withdrawal i started w row drawn e free d) r h = unmoved
  Step-Moves db _ (commit i w row drawn e) r h =
      let c = rw e at (r.calls i) in
      let d : IsDebited db.tables.balances w row = c.0 in
      let (positive, left) : (pos 0 ≤ℤ w.sum.cents) × (pos 0 ≤ℤ row.current) =
        rw e at (h.funded i) in
      rw e (moved unmoved (debited-Move db.tables w row drawn d positive left))
  Step-Moves db _ (roll_back i) r h = unmoved
  Step-Moves db _ (fetch net none_such over) r h = unmoved
  Step-Moves db _ (begin_batch k jid orders run results e d) r h = unmoved
  Step-Moves db _ give_up r h = unmoved
  Step-Moves db _ (update_row started o q row e d) r h = unmoved
  Step-Moves db _ (update_nothing o q e d) r h = unmoved
  Step-Moves db _ (increase started o q row e free d) r h = unmoved
  Step-Moves db _ (commit_batch e) r h = moved unmoved (credited-Move db r e)
  Step-Moves db _ roll_back_batch r h = unmoved
  Step-Moves db _ (serve route req net ne) r h =
      let w : World = record { tables = db.tables; net = net } in
      Moves-same db.tables (page codec hmac key_sig route req w).1.tables
        (page-Keeps codec hmac key_sig route req w ne).balances
  Step-Moves db _ (passes now later) r h = unmoved

  Moves-append : {a b c : Accounts} → Moves a b → Moves b c → Moves a c
  Moves-append m unmoved = m
  Moves-append m (moved n s) = moved (Moves-append m n) s

  module _
      (positive : (body : Bytes) (x : Service.Withdraw)
        → codec.decode_withdraw body ≡ some x
        → pos 0 ≤ℤ x.sum.cents)
      (honest : IsHonest decode) where
    Reach-Moves_running :
        (start db : Db)
        → Reach codec hmac key_sig decode Alone start db
        → IsRunning start
        → IsCovered start
        → Moves (accounts start.tables) (accounts db.tables)
    Reach-Moves_running start _ here r h = unmoved
    Reach-Moves_running start _ (next {db = before} {db' = after} rest s) r h =
        let (r', h') =
          Reach-IsCovered codec hmac key_sig decode positive honest start before rest r h in
        Moves-append (Reach-Moves_running start before rest r h) (Step-Moves before after s r' h')

    -- The committed tables refine the abstract accounts: however the statements of the transactions
    -- interleave and wherever they roll back, if no withdrawal begins while one of the same user runs,
    -- then from sound tables the balances change only by moves in which one user spends a sum that is
    -- not negative and no more than the user has, or users get points that are not negative. The clients
    -- must ask for no negative sums, and the accrual system must answer with points that are not
    -- negative and are 0 for an order that it leaves open.
    pub Reach-Moves :
        (start : Tables) (db : Db)
        → IsSound start
        → Reach codec hmac key_sig decode Alone (quiet start) db
        → Moves (accounts start) (accounts db.tables)
    Reach-Moves start db s r =
        Reach-Moves_running (quiet start) db r
          (quiet-IsRunning codec hmac key_sig decode Alone positive honest start
            (record { spent = s.books.spent; earned = s.books.earned }) s.keyed s.unpaid)
          (quiet-IsCovered start s)
