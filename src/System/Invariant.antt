-- ===== src/System/Invariant.antt =====
-- The orders that a round has sent, while uploads are served.
use gomart.Prelude.{
  ◌≡◌, inl, inr, All, none, some, Option, List, is_empty, Result-cases, Bool-cases,
}
use gomart.Conn.{World}
use gomart.Ledger.Keys.{IsKeyed, Unpaid}
use gomart.Service.Sound.{Uploaded}
use gomart.Accrual.{sent_orders}
use gomart.Store.{Order}
use gomart.Tables.Rows.{OrderRow}
use gomart.Service.{get_orders_for_process}
use gomart.System.Sent.{Uploaded-Waiting}
use gomart.Accrual.Cycle.{Waiting, get_orders_for_process-Waiting}

-- What the orders of the round that runs are.
abbrev pub AreWaiting : List OrderRow → Option (List Order) → Type 0
AreWaiting rows none = Unit
AreWaiting rows (some os) = Waiting rows os

pub Uploaded-AreWaiting :
    (rows rows' : List OrderRow) (sent : Option (List Order))
    → Uploaded rows rows'
    → AreWaiting rows sent
    → AreWaiting rows' sent
Uploaded-AreWaiting rows rows' none u h = tt
Uploaded-AreWaiting rows rows' (some os) u h = Uploaded-Waiting rows rows' os u h

pub sent_orders-AreWaiting :
    (w : World)
    → IsKeyed w.tables.orders
    → All Unpaid w.tables.orders
    → AreWaiting
        (get_orders_for_process w).1.tables.orders
        (sent_orders (get_orders_for_process w).0)
sent_orders-AreWaiting w keyed unpaid = elim (Result-cases (get_orders_for_process w).0) [
  | inl (e, failed) ↦ rw failed tt
  | inr (orders, found) ↦ elim (Bool-cases (is_empty orders)) [
    | inl none_open ↦ rw (found, none_open) tt
    | inr some_open ↦
        rw (found, some_open) (get_orders_for_process-Waiting w orders found keyed unpaid)
  ]
]

pub AreWaiting-some :
    (rows : List OrderRow) (sent : Option (List Order)) (orders : List Order)
    → sent ≡ some orders
    → AreWaiting rows sent
    → Waiting rows orders
AreWaiting-some rows sent orders e h = rw e at h
