-- ===== src/Concurrent/Books.antt =====
-- The books under every interleaving of the transactions.
use gomart.Prelude.{
  ℕ, ◌≡◌, ◌≢◌, refl, sym, ap, ◌∙◌, subst, Bool-cases, Option-cases, inl, inr, false, none, some,
  List, [], ◌∷◌, ◌++◌, ◌==◌, Bytes, Bool, ok, arith, All,
}
use gomart.Prelude.Int.{pos, ◌≤ℤ◌, int_laws}
use gomart.Password.{Hmac}
use gomart.Store.{Order, Withdraw, is_less, zero_decimal}
use gomart.Tables.{
  of_user, select_balance, balance_dec, balance_inc, store_balance, insert_withdrawal, decreased,
}
use gomart.Tables.Rows.{BalanceRow, WithdrawalRow, Tables, find}
use gomart.Conn.{Fault, World}
use gomart.PgStore.{scanned_or_zero}
use gomart.Ledger.Keys.{IsKeyed, Unpaid}
use gomart.Service.{get_orders_for_process}
use gomart.Service.Sound.{unchanged}
use gomart.Tables.Keys.{increased-user_id}
use gomart.Accrual.{sent_orders}
use gomart.Concurrent.{quiet}
use gomart.Concurrent.Orders.{no_batch-AreAnswered, no_batch-AddsUp}
use gomart.Concurrent.Statements.{balance_inc-row}
use gomart.Ledger.Withdrawals.{is_less-cents}
use gomart.Service
use gomart.Handlers.Pages.{Codec}
use gomart.Pool.{OrderAccrual}
use gomart.Pool.Workers.Replies.{delivered-AreReplies}
use gomart.Accrual.{collect, changed_orders}
use gomart.Accrual.Answers.{IsHonest}
use gomart.Accrual.Cycle.{changed_orders-AreCandidates_sent, get_orders_for_process-keeps}
use gomart.System.{page}
use gomart.System.Sent.{page-Uploaded}
use gomart.System.Invariant.{AreWaiting, AreWaiting-some, sent_orders-AreWaiting}
use gomart.Concurrent.{
  idle, reading, debiting, ending, view, put_balances, update, inc, batch_view, Db, Step, Reach,
  locked_user, at_start, begin, read, debit, record_withdrawal, commit, roll_back, fetch,
  begin_batch, give_up, update_row, update_nothing, increase, commit_batch, roll_back_batch, serve,
  passes, here, next,
}
use gomart.Concurrent.Balances.{IsDebited, IsDebitable, decreased-IsDebited, AddsUp-update}
use gomart.Concurrent.Statements.{
  update_order-IsWritten, AreAnswered-update, update_order-found, AreAnswered-increase,
  AddsUp-balance_inc,
}
use gomart.Concurrent.Requests.{page-Keeps}
use gomart.Concurrent.Invariant.{IsAccounted, IsRunning, move_on, lock_balance, commit-IsRunning}
use gomart.Concurrent.Rounds.{
  with_batch, without_batch, with_sent, with_queue, none_sent, commit_batch-IsRunning,
  Keeps-IsRunning,
}

-- A sum that the balance covers, as it was read.
read-IsDebitable :
    (w : Withdraw) (t : Tables)
    → pos 0 ≤ℤ w.sum.cents
    → is_less (scanned_or_zero (select_balance w.user_id t).0).accrual w.sum ≡ false
    → IsDebitable t.balances w
unfolding select_balance
read-IsDebitable w t positive covered = elim (Option-cases (find (of_user w.user_id) t.balances)) [
  | inr (row, found) ↦ inr (row, found)
  | inl missing ↦
      let bare : is_less (pos 0) w.sum ≡ false = ground (arith, missing, covered) in
      inl (omega (int_laws, is_less-cents (pos 0) w.sum bare, positive))
]

balance_dec-row :
    (w : Withdraw) (t : Tables) (row : BalanceRow)
    → (balance_dec w.user_id w.sum w.sum t).0 ≡ ok row
    → row ≡ decreased w.user_id w.sum.cents w.sum.cents t.now (find (of_user w.user_id) t.balances)
unfolding balance_dec store_balance
balance_dec-row w t row e = ground (arith, e)

insert_withdrawal-row :
    (w : Withdraw) (t : Tables) (row : WithdrawalRow)
    → (insert_withdrawal w.user_id w.order_id w.sum t).0 ≡ ok row
    → (row.user_id ≡ w.user_id) × (row.sum ≡ w.sum.cents)
unfolding insert_withdrawal
insert_withdrawal-row w t row e = ground (arith, e)

-- The rows that a call sees before it has written one are the committed ones.
read-IsDebitable_view :
    (w : Withdraw) (t : Tables)
    → pos 0 ≤ℤ w.sum.cents
    → is_less (scanned_or_zero (select_balance w.user_id (view (reading w) t)).0).accrual w.sum
      ≡ false
    → IsDebitable t.balances w
unfolding put_balances
read-IsDebitable_view w t positive covered =
    read-IsDebitable w (view (reading w) t) positive covered

pub debit-IsDebited :
    (w : Withdraw) (t : Tables) (row : BalanceRow)
    → (balance_dec w.user_id w.sum w.sum (view (debiting w) t)).0 ≡ ok row
    → IsDebitable t.balances w
    → IsDebited t.balances w row
unfolding put_balances
debit-IsDebited w t row e h =
    rw (balance_dec-row w (view (debiting w) t) row e) (decreased-IsDebited t.balances w t.now h)

balance_inc-user_id :
    (o : Order) (t : Tables) (row : BalanceRow)
    → (balance_inc o.user_id o.accrual zero_decimal t).0 ≡ ok row
    → row.user_id ≡ o.user_id
balance_inc-user_id o t row r =
    ap (λ b. b.user_id) (balance_inc-row o t row r)
    ∙ increased-user_id o.user_id o.accrual.cents (pos 0) t.now
        (find (of_user o.user_id) t.balances)

find-snoc_none :
    (id : ℕ) (bs : List BalanceRow) (row : BalanceRow)
    → find (of_user id) bs ≡ none
    → row.user_id ≢ id
    → find (of_user id) (bs ++ row ∷ []) ≡ none
find-snoc_none id [] row e ne = ground (arith, ne)
find-snoc_none id (b ∷ bs) row e ne = elim (Bool-cases (b.user_id == id)) [
  | inl own ↦ absurd (ground (arith, own, e))
  | inr other ↦ rw other (find-snoc_none id bs row (ground (arith, other, e)) ne)
]

abbrev fetching : Db → List Fault → World
fetching db net = record { tables = db.tables; net = net }

sent_orders-AreWaiting_now :
    (db : Db) (net : List Fault)
    → IsKeyed db.tables.orders
    → All Unpaid db.tables.orders
    → AreWaiting db.tables.orders (sent_orders (get_orders_for_process (fetching db net)).0)
sent_orders-AreWaiting_now db net keyed unpaid =
    subst (λ t. AreWaiting t.orders (sent_orders (get_orders_for_process (fetching db net)).0))
      (get_orders_for_process-keeps (fetching db net))
      (sent_orders-AreWaiting (fetching db net) keyed unpaid)

module _ (codec : Codec) (hmac : Hmac) (key_sig : Bytes) (decode : Bytes → OrderAccrual × Bool)
    (Allowed : Db → Withdraw → Type 0)
    (positive : (body : Bytes) (x : Service.Withdraw)
      → codec.decode_withdraw body ≡ some x
      → pos 0 ≤ℤ x.sum.cents)
    (honest : IsHonest decode) where
  pub Step-IsRunning :
      (db db' : Db) → Step codec hmac key_sig decode Allowed db db' → IsRunning db → IsRunning db'
  Step-IsRunning db _ (begin i body x w e decoded sum allowed) h =
      move_on db i (reading w) h (rw sum (positive body x decoded)) (λ id k. cc)
  Step-IsRunning db _ (read i w e covered) h =
      let gains = rw e at (h.calls i) in
      move_on db i (debiting w) h (gains, read-IsDebitable_view w db.tables gains (rw e at covered))
        (λ id k. cc)
  Step-IsRunning db _ (debit i started w row e free batch_free r) h =
      let c = rw e at (h.calls i) in
      lock_balance db i w row h (debit-IsDebited w (at_start started db.tables) row (rw e at r) c.1)
        free batch_free
  Step-IsRunning db _ (record_withdrawal i started w row drawn e free r) h =
      let c = rw e at (h.calls i) in
      let (user, sum) =
        insert_withdrawal-row w (view (db.sessions i) (at_start started db.tables)) drawn r in
      move_on db i (ending w row drawn) h (c, user, sum) (λ id k. ap locked_user e ∙ k)
  Step-IsRunning db _ (commit i w row drawn e) h = commit-IsRunning db i w row drawn e h
  Step-IsRunning db _ (roll_back i) h = move_on db i idle h tt (λ id k. cc)
  Step-IsRunning db _ (fetch net none_such over) h =
      with_sent db h (sent_orders (get_orders_for_process (fetching db net)).0)
        (sent_orders-AreWaiting_now db net h.keyed h.unpaid) (inr over)
  Step-IsRunning db _ (begin_batch k jid orders run results e d) h =
      let (candidates, distinct) =
        changed_orders-AreCandidates_sent decode honest db.tables.orders orders results
          (AreWaiting-some db.tables.orders db.sent orders e h.sent)
          (delivered-AreReplies decode k jid orders run results d) in
      with_queue db h (changed_orders (collect results).res_orders orders) candidates distinct
  Step-IsRunning db _ give_up h = with_sent db h none tt (inl refl)
  Step-IsRunning db _ (update_row started o q row e r) h =
      let k =
        update_order-IsWritten db.tables.orders db.batch h.answered o q e
          (batch_view db.batch (at_start started db.tables)) row refl r in
      with_batch db h _ (none_sent db h (update o) q e)
        (AreAnswered-update db.tables.orders db.batch h.answered o q e row k)
        (AddsUp-update db.tables.balances db.batch h.adds o q row e k.user k.accrual) h.batch_locks
  Step-IsRunning db _ (update_nothing o q e r) h = absurd (
      update_order-found db.tables.orders db.batch h.answered o q e (batch_view db.batch db.tables)
        refl r)
  Step-IsRunning db _ (increase started o q row e free r) h =
      with_batch db h _ (none_sent db h (inc o) q e)
        (AreAnswered-increase db.batch o q e db.tables.orders _ h.answered)
        (AddsUp-balance_inc db.batch o q e db.tables.orders (at_start started db.tables) row
          h.answered r h.adds)
        (λ i id l. find-snoc_none id db.batch.balances row (h.batch_locks i id l) (λ k. free i (
          l
          ∙ ap some (
              sym k
              ∙ balance_inc-user_id o (batch_view db.batch (at_start started db.tables)) row r))))
  Step-IsRunning db _ (commit_batch e) h = commit_batch-IsRunning db h e
  Step-IsRunning db _ roll_back_batch h = without_batch db h
  Step-IsRunning db _ (serve route req net ne) h =
      let w : World = record { tables = db.tables; net = net } in
      Keeps-IsRunning db h (page codec hmac key_sig route req w).1.tables
        (page-Keeps codec hmac key_sig route req w ne)
        (page-Uploaded codec hmac key_sig route req w)
  Step-IsRunning db _ (passes now later) h =
      Keeps-IsRunning db h (record db.tables { now = now })
        (record { balances = refl; withdrawals = refl }) (unchanged refl)

  pub quiet-IsRunning :
      (t : Tables) → IsAccounted t → IsKeyed t.orders → All Unpaid t.orders → IsRunning (quiet t)
  quiet-IsRunning t a k u = record {
    accounted = a;
    keyed = k;
    unpaid = u;
    calls = λ i. tt;
    locks = λ i j id ne l. cc;
    batch_locks = λ i id l. refl;
    answered = no_batch-AreAnswered t.orders;
    adds = no_batch-AddsUp t.balances;
    sent = tt;
    one_round = inl refl;
  }

  pub Reach-IsRunning :
      (start db : Db)
      → Reach codec hmac key_sig decode Allowed start db
      → IsRunning start
      → IsRunning db
  Reach-IsRunning start _ here h = h
  Reach-IsRunning start _ (next {db = before} {db' = after} r s) h =
      Step-IsRunning before after s (Reach-IsRunning start before r h)

  -- However the transactions interleave, with any number of withdrawals, also of one user, beside the
  -- one round that runs, and wherever they roll back: if at the start every user's withdrawn points are
  -- the recorded ones, current and withdrawn points together are the points of the user's orders, the
  -- order numbers differ and the open orders have no points, then all this holds of whatever is
  -- committed later, so that no update is lost. The clients must ask for no negative sums, and the
  -- accrual system must answer with points that are not negative and are 0 for an order that it leaves
  -- open.
  pub Reach-IsAccounted :
      (start : Tables) (db : Db)
      → IsAccounted start
      → IsKeyed start.orders
      → All Unpaid start.orders
      → Reach codec hmac key_sig decode Allowed (quiet start) db
      → IsAccounted db.tables × IsKeyed db.tables.orders × All Unpaid db.tables.orders
  Reach-IsAccounted start db a k u r =
      let h = Reach-IsRunning (quiet start) db r (quiet-IsRunning start a k u) in
      (h.accounted, h.keyed, h.unpaid)
