-- ===== src/Batch.antt =====
-- `UpdateOrdersBalancesBatch` of internal/common/store/pg/pg.go: the orders that the accrual system
-- has answered for are sent in batches, all in one transaction.
pub mod Chunks
pub mod Effect
use gomart.Prelude.{
  ℕ, suc, zero, ◌+◌, ◌-◌, Bool, not, ◌&&◌, List, [], ◌∷◌, ◌++◌, map, length, take, drop, ltb, ◌==◌,
  if◌then◌else◌, Result, ok, err,
}
use gomart.Prelude.Int.{pos}
use gomart.Store.{Order, zero_decimal}
use gomart.Tables.{PgError, Sql, balance_inc, update_order}
use gomart.Conn.{Call, InTx, tx_query, ◌>>=◌, ◌>>◌, pure, transaction}

abbrev pub drop_value : {A : Type 0} → Result PgError A → Result PgError (Unit {0})
drop_value (ok _) = ok tt
drop_value (err e) = err e

-- `batch.Queue(queryCOrderDefault, …)`
unfoldable pub queued_update : Order → Sql (Unit {0})
queued_update o t = let (r, t') = update_order o.order_id o.status o.accrual t in (drop_value r, t')

-- `batch.Queue(queryBalanceIncDefault, …)`
unfoldable pub queued_inc : Order → Sql (Unit {0})
queued_inc o t = let (r, t') = balance_inc o.user_id o.accrual zero_decimal t in (drop_value r, t')

-- The statements of a batch run in order, up to the first error.
unfoldable pub run_queue : List (Sql (Unit {0})) → Sql (Unit {0})
run_queue [] t = (ok tt, t)
run_queue (sql ∷ queue) t =
    let (r, t') = sql t in elim r [ ok _ ↦ run_queue queue t' | err e ↦ (err e, t') ]

-- `tx.SendBatch(ctx, batch)` and `br.Close()`
unfoldable pub send_batch : List Order → InTx (Unit {0})
send_batch orders = tx_query (run_queue (map queued_update orders ++ map queued_inc orders))

unfoldable pub first_limit : ℕ → ℕ → ℕ
first_limit limitbatch len = if not (limitbatch == 0) && ltb limitbatch len then limitbatch else len

-- The parts of the slice that the rounds of `for index := 0; index < len(orders); …` send.
unfoldable pub chunks : ℕ → ℕ → List Order → ℕ → List (List Order)
chunks zero index_limit orders index = []
chunks (suc fuel) index_limit orders index =
    let limit =
      if ltb (length orders) (index + index_limit) then length orders - index else index_limit in
    let more = take limit (drop index orders) ∷ chunks fuel limit orders (index + limit) in
    if ltb index (length orders) then more else []

unfoldable pub send_chunks : List (List Order) → InTx (Unit {0})
send_chunks [] = pure tt
send_chunks (c ∷ cs) = send_batch c >> send_chunks cs

unfoldable pub batch_body : ℕ → List Order → InTx (Unit {0})
batch_body limitbatch orders =
    send_chunks (chunks (length orders) (first_limit limitbatch (length orders)) orders 0)

unfoldable pub update_orders_balances_batch : ℕ → List Order → Call (Unit {0})
update_orders_balances_batch limitbatch orders = transaction (batch_body limitbatch orders)
