-- ===== src/Batch/Effect.antt =====
-- What a batch that succeeds does to the tables, whatever its parts: each order's row takes the new
-- status and accrual, and each user's balance grows.
use mathlib.Core.List.{flatten}
use gomart.Prelude.{
  ℕ, ◌≡◌, refl, ◌∙◌, ap, ap₂, subst, All, All-append, Option-cases, ◌⊎◌, inl, inr, length, none,
  some, List, [], ◌∷◌, ◌++◌, map, arith, Result, ok, err,
}
use gomart.Prelude.Int.{pos}
use gomart.Store.{Order}
use gomart.Tables.{
  PgError, Sql, parse_status, has_order, of_user, increased, store_balance, balance_inc,
  update_order,
}
use gomart.Tables.Rows.{OrderStatus, OrderRow, BalanceRow, Tables, find, put_order, put_balance}
use gomart.Conn.{Tx, World}
use gomart.Conn.Laws.{tx_query-Answered, >>=-eq-ok, transaction-atomic}
use gomart.Batch.Chunks.{flatten-chunks}
use gomart.Batch.{
  queued_update, queued_inc, run_queue, send_batch, chunks, first_limit, send_chunks, batch_body,
  update_orders_balances_batch,
}

unfoldable pub update_row : ℕ → Order → List OrderRow → List OrderRow
update_row now o rows = elim (parse_status o.status) [
  | none ↦ rows
  | some s ↦ elim (find (has_order o.order_id) rows) [
    | none ↦ rows
    | some row ↦
        put_order (record row { status = s; accrual = o.accrual.cents; changed_at = now }) rows
  ]
]

unfoldable pub update_rows : ℕ → List Order → List OrderRow → List OrderRow
update_rows now [] rows = rows
update_rows now (o ∷ os) rows = update_rows now os (update_row now o rows)

unfoldable pub grow : ℕ → Order → List BalanceRow → List BalanceRow
grow now o rows =
    put_balance (increased o.user_id o.accrual.cents (pos 0) now (find (of_user o.user_id) rows))
      rows

unfoldable pub grow_rows : ℕ → List Order → List BalanceRow → List BalanceRow
grow_rows now [] rows = rows
grow_rows now (o ∷ os) rows = grow_rows now os (grow now o rows)

queued_update-ok :
    (o : Order) (t t' : Tables)
    → queued_update o t ≡ (ok tt, t')
    → t' ≡ record t { orders = update_row t.now o t.orders }
unfolding queued_update update_order update_row
queued_update-ok o t t' e = ground arith

-- The statuses that the column takes.
abbrev pub IsStatus : Order → Type 0
IsStatus o = (s : OrderStatus) × (parse_status o.status ≡ some s)

queued_update-IsStatus : (o : Order) (t t' : Tables) → queued_update o t ≡ (ok tt, t') → IsStatus o
unfolding queued_update update_order
queued_update-IsStatus o t t' e = elim (Option-cases (parse_status o.status)) [
  | inl none_such ↦ ground arith
  | inr found ↦ found
]

queued_inc-ok :
    (o : Order) (t t' : Tables)
    → queued_inc o t ≡ (ok tt, t')
    → t' ≡ record t { balances = grow t.now o t.balances }
unfolding queued_inc balance_inc store_balance grow
queued_inc-ok o t t' e = ground arith

-- The queue succeeds only if each statement of it does.
run_queue-cons :
    (sql : Sql (Unit {0})) (queue : List (Sql (Unit {0}))) (t t' : Tables)
    → run_queue (sql ∷ queue) t ≡ (ok tt, t')
    → (t₁ : Tables) × (sql t ≡ (ok tt, t₁)) × (run_queue queue t₁ ≡ (ok tt, t'))
unfolding run_queue
run_queue-cons sql queue t t' e = go (sql t) refl e
  where
    go :
        (p : Result PgError (Unit {0}) × Tables)
        → sql t ≡ p
        → elim p.0 [ ok _ ↦ run_queue queue p.1 | err x ↦ (err x, p.1) ] ≡ (ok tt, t')
        → (t₁ : Tables) × (sql t ≡ (ok tt, t₁)) × (run_queue queue t₁ ≡ (ok tt, t'))
    go (ok tt, t₁) q h = (t₁, q, h)
    go (err x, t₁) q h = cc

run_queue-step :
    (sql : Sql (Unit {0})) (queue : List (Sql (Unit {0}))) (t t₁ : Tables)
    → sql t ≡ (ok tt, t₁)
    → run_queue (sql ∷ queue) t ≡ run_queue queue t₁
unfolding run_queue
run_queue-step sql queue t t₁ p =
    ap (λ q. elim q.0 [ ok _ ↦ run_queue queue q.1 | err x ↦ (err x, q.1) ]) p

run_queue-append :
    (xs ys : List (Sql (Unit {0}))) (t t' : Tables)
    → run_queue (xs ++ ys) t ≡ (ok tt, t')
    → (t₁ : Tables) × (run_queue xs t ≡ (ok tt, t₁)) × (run_queue ys t₁ ≡ (ok tt, t'))
unfolding run_queue
run_queue-append [] ys t t' e = (t, refl, e)
run_queue-append (x ∷ xs) ys t t' e =
    let (t₁, p, rest) = run_queue-cons x (xs ++ ys) t t' e in
    let (t₂, q, last) = run_queue-append xs ys t₁ t' rest in
    (t₂, run_queue-step x xs t t₁ p ∙ q, last)

queued_updates-ok :
    (os : List Order) (t t' : Tables)
    → run_queue (map queued_update os) t ≡ (ok tt, t')
    → t' ≡ record t { orders = update_rows t.now os t.orders }
unfolding run_queue update_rows
queued_updates-ok [] t t' e = cc
queued_updates-ok (o ∷ os) t t' e =
    let (t₁, p, rest) = run_queue-cons (queued_update o) (map queued_update os) t t' e in
    let q = queued_update-ok o t t₁ p in rw q at (queued_updates-ok os t₁ t' rest)

queued_updates-IsStatus :
    (os : List Order) (t t' : Tables)
    → run_queue (map queued_update os) t ≡ (ok tt, t')
    → All IsStatus os
queued_updates-IsStatus [] t t' e = tt
queued_updates-IsStatus (o ∷ os) t t' e =
    let (t₁, p, rest) = run_queue-cons (queued_update o) (map queued_update os) t t' e in
    (queued_update-IsStatus o t t₁ p, queued_updates-IsStatus os t₁ t' rest)

queued_incs-ok :
    (os : List Order) (t t' : Tables)
    → run_queue (map queued_inc os) t ≡ (ok tt, t')
    → t' ≡ record t { balances = grow_rows t.now os t.balances }
unfolding run_queue grow_rows
queued_incs-ok [] t t' e = cc
queued_incs-ok (o ∷ os) t t' e =
    let (t₁, p, rest) = run_queue-cons (queued_inc o) (map queued_inc os) t t' e in
    let q = queued_inc-ok o t t₁ p in rw q at (queued_incs-ok os t₁ t' rest)

-- The tables after all the orders have been accounted for.
abbrev pub accounted : List Order → Tables → Tables
accounted os t = record t {
  orders = update_rows t.now os t.orders;
  balances = grow_rows t.now os t.balances;
}

run_batch-ok :
    (os : List Order) (t t' : Tables)
    → run_queue (map queued_update os ++ map queued_inc os) t ≡ (ok tt, t')
    → All IsStatus os × (t' ≡ accounted os t)
run_batch-ok os t t' e =
    let (t₁, p, q) = run_queue-append (map queued_update os) (map queued_inc os) t t' e in
    (
      queued_updates-IsStatus os t t₁ p,
      rw (queued_updates-ok os t t₁ p) at (queued_incs-ok os t₁ t' q),
    )

update_rows-append :
    (now : ℕ) (os ps : List Order) (rows : List OrderRow)
    → update_rows now (os ++ ps) rows ≡ update_rows now ps (update_rows now os rows)
unfolding update_rows
update_rows-append now [] ps rows = refl
update_rows-append now (o ∷ os) ps rows = update_rows-append now os ps (update_row now o rows)

grow_rows-append :
    (now : ℕ) (os ps : List Order) (rows : List BalanceRow)
    → grow_rows now (os ++ ps) rows ≡ grow_rows now ps (grow_rows now os rows)
unfolding grow_rows
grow_rows-append now [] ps rows = refl
grow_rows-append now (o ∷ os) ps rows = grow_rows-append now os ps (grow now o rows)

accounted-append :
    (os ps : List Order) (t : Tables) → accounted ps (accounted os t) ≡ accounted (os ++ ps) t
accounted-append os ps t =
    rw (update_rows-append t.now os ps t.orders, grow_rows-append t.now os ps t.balances) refl

send_batch-ok :
    (os : List Order) (tx tx' : Tx)
    → send_batch os tx ≡ (ok tt, tx')
    → All IsStatus os × (tx'.view ≡ accounted os tx.view)
unfolding send_batch
send_batch-ok os tx tx' e =
    run_batch-ok os tx.view tx'.view
      (tx_query-Answered (run_queue (map queued_update os ++ map queued_inc os)) tx tt tx' e).ran

send_chunks-ok :
    (cs : List (List Order)) (tx tx' : Tx)
    → send_chunks cs tx ≡ (ok tt, tx')
    → All IsStatus (flatten cs) × (tx'.view ≡ accounted (flatten cs) tx.view)
unfolding send_chunks flatten update_rows grow_rows
send_chunks-ok [] tx tx' e = (tt, cc)
send_chunks-ok (c ∷ cs) tx tx' e =
    let (_, tx₁, first, rest) = >>=-eq-ok (send_batch c) (λ _. send_chunks cs) tx tt tx' e in
    let (here, view) = send_batch-ok c tx tx₁ first in
    let (later, view') = send_chunks-ok cs tx₁ tx' rest in
    (
      All-append IsStatus c (flatten cs) here later,
      view' ∙ ap (accounted (flatten cs)) view ∙ accounted-append c (flatten cs) tx.view,
    )

-- Whatever the batch limit and whatever breaks on the way, the call stores nothing and returns an
-- error, or every status is one of the column's and it has accounted for every order, one after the
-- other.
pub update_orders_balances_batch-accounted :
    (limitbatch : ℕ) (os : List Order) (w : World)
    → let (r, w') = update_orders_balances_batch limitbatch os w in
      ((e : PgError) × (r ≡ err e) × (w'.tables ≡ w.tables))
      ⊎ (All IsStatus os × (w'.tables ≡ accounted os w.tables))
unfolding update_orders_balances_batch batch_body
update_orders_balances_batch-accounted limitbatch os w =
    elim (transaction-atomic (batch_body limitbatch os) w) [
      | inl kept ↦ inl kept
      | inr c ↦
          let parts = chunks (length os) (first_limit limitbatch (length os)) os 0 in
          let (statuses, view) = send_chunks-ok parts c.tx c.tx' c.ran in
          inr (
            subst (All IsStatus) (flatten-chunks limitbatch os) statuses,
            c.stored ∙ view ∙ ap₂ accounted (flatten-chunks limitbatch os) c.same_view,
          )
    ]
