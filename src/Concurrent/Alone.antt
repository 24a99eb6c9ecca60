-- ===== src/Concurrent/Alone.antt =====
-- Withdrawals of which no two of one user run at the same time leave no balance negative.
use gomart.Prelude.{
  ℕ, ◌≡◌, ◌≢◌, sym, ap, ◌∙◌, Bool-cases, inl, inr, some, List, ◌==◌, Bytes, Bool, arith,
}
use gomart.Prelude.Int.{pos, ◌≤ℤ◌, int_laws}
use gomart.Password.{Hmac}
use gomart.Store.{Withdraw}
use gomart.Tables.Rows.{BalanceRow, WithdrawalRow, Tables, put_balance}
use gomart.Conn.{World}
use gomart.PgStore.Withdrawal.{current_of}
use gomart.Ledger.Sums.{current_of-put_balance}
use gomart.Ledger.Sound.{IsSound}
use gomart.Service
use gomart.Handlers.Pages.{Codec}
use gomart.Pool.{OrderAccrual}
use gomart.Accrual.Answers.{IsHonest}
use gomart.Concurrent.{
  Session, idle, reading, debiting, recording, ending, view, put_balances, Db, Step, Reach, quiet,
  update_at, at_start, begin, read, debit, record_withdrawal, commit, roll_back, fetch, begin_batch,
  give_up, update_row, update_nothing, increase, commit_batch, roll_back_batch, serve, passes, here,
  next,
}
use gomart.Concurrent.Funds.{
  session_user, Alone, IsFunded, IsCovered, AreAlone-update_at, IsFunded-grows, read-funded,
}
use gomart.Concurrent.Balances.{IsDebited}
use gomart.Concurrent.Calls.{update_at-all}
use gomart.Concurrent.Requests.{page-Keeps}
use gomart.Concurrent.Invariant.{IsRunning}
use gomart.Concurrent.Books.{debit-IsDebited, quiet-IsRunning, Step-IsRunning}

module _ (db : Db) (h : IsCovered db) where
  -- A call moves on, of the same user or to its end.
  advance :
      (i : ℕ) (s : Session)
      → ((j id : ℕ) → j ≢ i → session_user s ≡ some id → session_user (db.sessions j) ≢ some id)
      → IsFunded db.tables.balances s
      → IsCovered (record db { sessions = update_at i s db.sessions })
  advance i s new f = record {
    covered = h.covered;
    alone = AreAlone-update_at i s db.sessions new h.alone;
    funded = update_at-all (IsFunded db.tables.balances) i s db.sessions f (λ j _. h.funded j);
  }

  continue :
      (i : ℕ) (s : Session)
      → ((id : ℕ) → session_user s ≡ some id → session_user (db.sessions i) ≡ some id)
      → IsFunded db.tables.balances s
      → IsCovered (record db { sessions = update_at i s db.sessions })
  continue i s own f = advance i s (λ j id ne k. h.alone i j id (λ e. ne (sym e)) (own id k)) f

  -- Other tables, where no balance is less.
  regrown :
      (rows : List BalanceRow)
      → ((id : ℕ) → current_of id db.tables.balances ≤ℤ current_of id rows)
      → ((id : ℕ) → pos 0 ≤ℤ current_of id rows) × ((i : ℕ) → IsFunded rows (db.sessions i))
  regrown rows g = (
    (λ id. omega (int_laws, h.covered id, g id)),
    (λ i. IsFunded-grows db.tables.balances rows (db.sessions i) (λ id _. g id) (h.funded i)),
  )

  committed :
      (i : ℕ) (w : Withdraw) (row : BalanceRow) (drawn : WithdrawalRow)
      → db.sessions i ≡ ending w row drawn
      → row.user_id ≡ w.user_id
      → IsCovered (record db {
        tables = view (db.sessions i) db.tables;
        sessions = update_at i idle db.sessions;
      })
  unfolding put_balances
  committed i w row drawn e user =
      let own = ap session_user e ∙ ap some (sym user) in
      let (positive, left) : (pos 0 ≤ℤ w.sum.cents) × (pos 0 ≤ℤ row.current) =
        rw e at (h.funded i) in
      rw e (record {
        covered = λ id.
            rw (current_of-put_balance id row db.tables.balances)
              (grind (int_laws, left, h.covered id));
        alone = AreAlone-update_at i idle db.sessions (λ j id ne k. cc) h.alone;
        funded =
            update_at-all (IsFunded (put_balance row db.tables.balances)) i idle db.sessions tt
              (λ j ne.
                IsFunded-grows db.tables.balances (put_balance row db.tables.balances)
                  (db.sessions j)
                  (λ id k.
                    rw (current_of-put_balance id row db.tables.balances)
                      (elim (Bool-cases (row.user_id == id)) [
                        | inl same ↦
                            let id' : row.user_id ≡ id = ground (arith, same) in
                            absurd (
                              h.alone i j row.user_id (λ x. ne (sym x)) own (k ∙ ap some (sym id')))
                        | inr other ↦ rw other (omega int_laws)
                      ]))
                  (h.funded j));
      })

module _ (codec : Codec) (hmac : Hmac) (key_sig : Bytes)
    (decode : Bytes → OrderAccrual × Bool) where
  Step-IsCovered :
      (db db' : Db)
      → Step codec hmac key_sig decode Alone db db'
      → IsRunning db
      → IsCovered db
      → IsCovered db'
  Step-IsCovered db _ (begin i body x w e decoded sum alone) r h =
      advance db h i (reading w) (λ j id ne k l. alone j (l ∙ sym k)) tt
  Step-IsCovered db _ (read i w e covered) r h =
      continue db h i (debiting w) (λ id k. ap session_user e ∙ k)
        (read-funded w db.tables (h.covered w.user_id) (rw e at covered))
  Step-IsCovered db _ (debit i started w row e free batch_free d) r h =
      let c = rw e at (r.calls i) in
      let f : w.sum.cents ≤ℤ current_of w.user_id db.tables.balances = rw e at (h.funded i) in
      let is = debit-IsDebited w (at_start started db.tables) row (rw e at d) c.1 in
      continue db h i (recording w row) (λ id k. ap session_user e ∙ k)
        (c.0, rw is.current (omega (int_laws, f)))
  Step-IsCovered db _ (record_withdrawal i started w row drawn e free d) r h =
      continue db h i (ending w row drawn) (λ id k. ap session_user e ∙ k) (rw e at (h.funded i))
  Step-IsCovered db _ (commit i w row drawn e) r h =
      let c = rw e at (r.calls i) in
      let d : IsDebited db.tables.balances w row = c.0 in committed db h i w row drawn e d.user
  Step-IsCovered db _ (roll_back i) r h = continue db h i idle (λ id k. cc) tt
  Step-IsCovered db _ (fetch net none_such over) r h = record {
    covered = h.covered;
    alone = h.alone;
    funded = h.funded;
  }
  Step-IsCovered db _ (begin_batch k jid orders run results e d) r h = record {
    covered = h.covered;
    alone = h.alone;
    funded = h.funded;
  }
  Step-IsCovered db _ give_up r h = record {
    covered = h.covered;
    alone = h.alone;
    funded = h.funded;
  }
  Step-IsCovered db _ (update_row started o q row e d) r h = record {
    covered = h.covered;
    alone = h.alone;
    funded = h.funded;
  }
  Step-IsCovered db _ (update_nothing o q e d) r h = record {
    covered = h.covered;
    alone = h.alone;
    funded = h.funded;
  }
  Step-IsCovered db _ (increase started o q row e free d) r h = record {
    covered = h.covered;
    alone = h.alone;
    funded = h.funded;
  }
  Step-IsCovered db _ (commit_batch e) r h =
      let (covered, funded) =
        regrown db h (put_balances db.batch.balances db.tables.balances) r.adds.grows in
      record { covered = covered; alone = h.alone; funded = funded }
  Step-IsCovered db _ roll_back_batch r h = record {
    covered = h.covered;
    alone = h.alone;
    funded = h.funded;
  }
  Step-IsCovered db _ (serve route req net ne) r h =
      let w : World = record { tables = db.tables; net = net } in
      let k = page-Keeps codec hmac key_sig route req w ne in
      record { covered = rw k.balances h.covered; alone = h.alone; funded = rw k.balances h.funded }
  Step-IsCovered db _ (passes now later) r h = record {
    covered = h.covered;
    alone = h.alone;
    funded = h.funded;
  }

  module _
      (positive : (body : Bytes) (x : Service.Withdraw)
        → codec.decode_withdraw body ≡ some x
        → pos 0 ≤ℤ x.sum.cents)
      (honest : IsHonest decode) where
    pub Reach-IsCovered :
        (start db : Db)
        → Reach codec hmac key_sig decode Alone start db
        → IsRunning start
        → IsCovered start
        → IsRunning db × IsCovered db
    Reach-IsCovered start _ here r h = (r, h)
    Reach-IsCovered start _ (next {db = before} {db' = after} rest s) r h =
        let (r', h') = Reach-IsCovered start before rest r h in
        (
          Step-IsRunning codec hmac key_sig decode Alone positive honest before after s r',
          Step-IsCovered before after s r' h',
        )

    -- However the transactions interleave and wherever they roll back, if no withdrawal begins while
    -- one of the same user runs, then from sound tables only sound ones are committed: besides balanced
    -- books, different order numbers and open orders without points, no balance is ever negative. The
    -- clients must ask for no negative sums, and the accrual system must answer with points that are
    -- not negative and are 0 for an order that it leaves open.
    pub Reach-IsSound-Alone :
        (start : Tables) (db : Db)
        → IsSound start
        → Reach codec hmac key_sig decode Alone (quiet start) db
        → IsSound db.tables
    Reach-IsSound-Alone start db s r =
        let (h, c) =
          Reach-IsCovered (quiet start) db r
            (quiet-IsRunning codec hmac key_sig decode Alone positive honest start
              (record { spent = s.books.spent; earned = s.books.earned }) s.keyed s.unpaid)
            (record { covered = s.books.covered; alone = λ i j id ne l. cc; funded = λ i. tt }) in
        record {
          books = record {
            spent = h.accounted.spent;
            earned = h.accounted.earned;
            covered = c.covered;
          };
          keyed = h.keyed;
          unpaid = h.unpaid;
        }
