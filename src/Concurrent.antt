-- ===== src/Concurrent.antt =====
-- The transactions of internal/common/store/pg/pg.go statement by statement: any number of calls of
-- `InsertWithdraw` and the one of `UpdateOrdersBalancesBatch` that `mainAccrual` makes, interleaved. The
-- database is at PostgreSQL's default level: a statement sees what others have committed before it and
-- what its own transaction has written, and a row that a transaction has written is locked to its end.
pub mod Versions
pub mod Balances
pub mod Orders
pub mod Statements
pub mod Calls
pub mod Requests
pub mod Invariant
pub mod Rounds
pub mod Books
pub mod Funds
pub mod Alone
pub mod Accounts
pub mod Sequence
use gomart.Prelude.{
  ℕ, ◌≡◌, ◌≢◌, ◌≤◌, Bool, true, false, Option, none, some, List, [], ◌∷◌, ◌++◌, map, Bytes, ◌==◌,
  if◌then◌else◌, Result, ok, err,
}
use gomart.Password.{Hmac}
use gomart.Store.{is_less, zero_decimal, Order, Withdraw}
use gomart.Tables.{
  of_user, has_withdrawal, select_balance, balance_dec, balance_inc, insert_withdrawal,
  update_order,
}
use gomart.Tables.Rows.{OrderRow, BalanceRow, WithdrawalRow, Tables, find, put_order, put_balance}
use gomart.Conn.{Fault, World}
use gomart.PgStore.{scanned_or_zero}
use gomart.Service
use gomart.Service.{get_orders_for_process}
use gomart.Handlers.{Request}
use gomart.Handlers.Pages.{Codec}
use gomart.Pool.{OrderAccrual, JobResult}
use gomart.Pool.Workers.Replies.{Finished, delivered}
use gomart.Accrual.{collect, changed_orders, sent_orders}
use gomart.System.{Route, post_withdraw, page}

-- A call of `InsertWithdraw`: about to read the balance, to debit it, to record the withdrawal, and to
-- commit; with the rows that it has written.
pub data Session : Type 0 where
  idle : Session
  reading debiting : Withdraw → Session
  recording : Withdraw → BalanceRow → Session
  ending : Withdraw → BalanceRow → WithdrawalRow → Session

abbrev pub written_balances : Session → List BalanceRow
written_balances (recording w row) = row ∷ []
written_balances (ending w row drawn) = row ∷ []
written_balances _ = []

abbrev pub written_withdrawals : Session → List WithdrawalRow
written_withdrawals (ending w row drawn) = drawn ∷ []
written_withdrawals _ = []

unfoldable pub put_balances : List BalanceRow → List BalanceRow → List BalanceRow
put_balances [] rows = rows
put_balances (r ∷ rs) rows = put_balances rs (put_balance r rows)

unfoldable pub put_orders : List OrderRow → List OrderRow → List OrderRow
put_orders [] rows = rows
put_orders (r ∷ rs) rows = put_orders rs (put_order r rows)

-- The tables as the transaction sees them.
abbrev pub view : Session → Tables → Tables
view s t = record t {
  balances = put_balances (written_balances s) t.balances;
  withdrawals = t.withdrawals ++ written_withdrawals s;
}

-- The statements of `batch`, and the rows that those before have written.
pub data Queued : Type 0 where
  update inc : Order → Queued

pub record Batch : Type 0 where
  pub queue : List Queued
  pub orders : List OrderRow
  pub balances : List BalanceRow

abbrev pub no_batch : Batch
no_batch = record { queue = []; orders = []; balances = [] }

-- `UpdateOrdersAndBalances` gives no limit, so that there is one part.
abbrev pub queued : List Order → Batch
queued os = record { queue = map update os ++ map inc os; orders = []; balances = [] }

abbrev pub batch_view : Batch → Tables → Tables
batch_view b t = record t {
  orders = put_orders b.orders t.orders;
  balances = put_balances b.balances t.balances;
}

-- What is committed, the calls by their connections, and what `mainAccrual` is at: the orders that the
-- round has sent, or its call of the store.
pub record Db : Type 0 where
  pub tables : Tables
  pub sessions : ℕ → Session
  pub batch : Batch
  pub sent : Option (List Order)

abbrev pub update_at : ℕ → Session → (ℕ → Session) → ℕ → Session
update_at i s sessions j = if j == i then s else sessions j

-- The user whose balance the call has written, and the order number of its withdrawal.
abbrev pub locked_user : Session → Option ℕ
locked_user (recording w row) = some w.user_id
locked_user (ending w row drawn) = some w.user_id
locked_user _ = none

abbrev pub locked_number : Session → Option ℕ
locked_number (ending w row drawn) = some w.order_id
locked_number _ = none

-- What `now()` is in a transaction that began at `started`.
abbrev pub at_start : ℕ → Tables → Tables
at_start started t = record t { now = started }

-- A transaction of the pool, and a handler that makes none, in any order. `Allowed` is what a withdrawal
-- must meet to be begun.
module _ (codec : Codec) (hmac : Hmac) (key_sig : Bytes) (decode : Bytes → OrderAccrual × Bool)
    (Allowed : Db → Withdraw → Type 0) where
  pub data Step (db : Db) : Db → Type 0 where
    begin :
        (i : ℕ) (body : Bytes) (x : Service.Withdraw) (w : Withdraw)
        → db.sessions i ≡ idle
        → codec.decode_withdraw body ≡ some x
        → w.sum ≡ x.sum
        → Allowed db w
        → Step db (record db { sessions = update_at i (reading w) db.sessions })
    read :
        (i : ℕ) (w : Withdraw)
        → db.sessions i ≡ reading w
        → is_less
            (scanned_or_zero (select_balance w.user_id (view (db.sessions i) db.tables)).0).accrual
            w.sum
          ≡ false
        → Step db (record db { sessions = update_at i (debiting w) db.sessions })
    debit :
        (i started : ℕ) (w : Withdraw) (row : BalanceRow)
        → db.sessions i ≡ debiting w
        → ((j : ℕ) → j ≢ i → locked_user (db.sessions j) ≢ some w.user_id)
        → find (of_user w.user_id) db.batch.balances ≡ none
        → (balance_dec w.user_id w.sum w.sum (view (db.sessions i) (at_start started db.tables))).0
          ≡ ok row
        → Step db (record db { sessions = update_at i (recording w row) db.sessions })
    record_withdrawal :
        (i started : ℕ) (w : Withdraw) (row : BalanceRow) (drawn : WithdrawalRow)
        → db.sessions i ≡ recording w row
        → ((j : ℕ) → j ≢ i → locked_number (db.sessions j) ≢ some w.order_id)
        → (insert_withdrawal w.user_id w.order_id w.sum
            (view (db.sessions i) (at_start started db.tables))).0
          ≡ ok drawn
        → Step db (record db { sessions = update_at i (ending w row drawn) db.sessions })
    commit :
        (i : ℕ) (w : Withdraw) (row : BalanceRow) (drawn : WithdrawalRow)
        → db.sessions i ≡ ending w row drawn
        → Step db (record db {
          tables = view (db.sessions i) db.tables;
          sessions = update_at i idle db.sessions;
        })
    roll_back : (i : ℕ) → Step db (record db { sessions = update_at i idle db.sessions })
    fetch :
        (net : List Fault)
        → db.sent ≡ none
        → db.batch ≡ no_batch
        → Step db (record db {
          sent = sent_orders (get_orders_for_process (record { tables = db.tables; net = net })).0;
        })
    begin_batch :
        (worker_count jid : ℕ) (orders : List Order)
        (run : Option (Finished decode worker_count jid orders)) (results : List JobResult)
        → db.sent ≡ some orders
        → delivered run ≡ some results
        → Step db (record db {
          batch = queued (changed_orders (collect results).res_orders orders);
          sent = none;
        })
    give_up : Step db (record db { sent = none })
    update_row :
        (started : ℕ) (o : Order) (later : List Queued) (row : OrderRow)
        → db.batch.queue ≡ update o ∷ later
        → (update_order o.order_id o.status o.accrual
            (batch_view db.batch (at_start started db.tables))).0
          ≡ ok (some row)
        → Step db (record db {
          batch = record db.batch { queue = later; orders = db.batch.orders ++ row ∷ [] };
        })
    update_nothing :
        (o : Order) (later : List Queued)
        → db.batch.queue ≡ update o ∷ later
        → (update_order o.order_id o.status o.accrual (batch_view db.batch db.tables)).0 ≡ ok none
        → Step db (record db { batch = record db.batch { queue = later } })
    increase :
        (started : ℕ) (o : Order) (later : List Queued) (row : BalanceRow)
        → db.batch.queue ≡ inc o ∷ later
        → ((j : ℕ) → locked_user (db.sessions j) ≢ some o.user_id)
        → (balance_inc o.user_id o.accrual zero_decimal
            (batch_view db.batch (at_start started db.tables))).0
          ≡ ok row
        → Step db (record db {
          batch = record db.batch { queue = later; balances = db.batch.balances ++ row ∷ [] };
        })
    commit_batch :
        db.batch.queue ≡ []
        → Step db (record db { tables = batch_view db.batch db.tables; batch = no_batch })
    roll_back_batch : Step db (record db { batch = no_batch })
    serve :
        (route : Route) (req : Request) (net : List Fault)
        → route ≢ post_withdraw
        → Step db (record db {
          tables =
              (page codec hmac key_sig route req
                (record { tables = db.tables; net = net })).1.tables;
        })
    passes :
        (now : ℕ)
        → db.tables.now ≤ now
        → Step db (record db { tables = record db.tables { now = now } })

  pub data Reach (start : Db) : Db → Type 0 where
    here : Reach start start
    next : {db db' : Db} → Reach start db → Step db db' → Reach start db'

-- Nothing runs.
abbrev pub quiet : Tables → Db
quiet t = record { tables = t; sessions = λ i. idle; batch = no_batch; sent = none }
