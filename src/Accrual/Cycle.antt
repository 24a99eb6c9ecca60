-- ===== src/Accrual/Cycle.antt =====
-- A round of `mainAccrual` keeps the tables sound, whatever the accrual system answers within its
-- specification, in whatever order the workers deliver the answers, and whatever breaks on the way.
use gomart.Prelude.{
  none, Bytes, ◌≡◌, refl, sym, subst, inl, inr, Bool, Bool-cases, Option-cases, Result-cases,
  Option, some, List, [], ◌∷◌, map, is_empty, ok, arith, All,
}
use gomart.Store.{Order}
use gomart.Tables.{has_open_status, select_orders_processing}
use gomart.Tables.Rows.{OrderRow, Tables, filter, latest_first}
use gomart.Tables.Each.{find-All}
use gomart.Conn.{World, query}
use gomart.PgStore.{scanned_order, get_orders_for_processing}
use gomart.Batch.Effect.{IsStatus, update_orders_balances_batch-accounted, accounted}
use gomart.Ledger.Credits.{IsAnswer, AreDistinct}
use gomart.Ledger.Keys.{
  IsKeyed, Unpaid, IsSelected, AreSelected, IsKeyed-filter, IsKeyed-latest_first, AreDistinct-map,
}
use gomart.Ledger.Sound.{IsSound, NoAdvance, accounted-IsSound}
use gomart.Service.{get_orders_for_process, update_orders_and_balances}
use gomart.Pool.{OrderAccrual, JobResult}
use gomart.Accrual.{
  sent_orders, stored_results, collect, changed_orders, after_collect, main_accrual_round,
}
use gomart.Accrual.Answers.{
  IsHonest, IsCandidate, IsSent, IsAnswer-of_IsCandidate, collect-AreKept,
  changed_orders-AreCandidates,
}
use gomart.Pool.Workers.Replies.{IsReply}

abbrev open_orders : Tables → List Order
open_orders t = map scanned_order (latest_first (filter has_open_status t.orders))

pub get_orders_for_process-keeps : (w : World) → (get_orders_for_process w).1.tables ≡ w.tables
unfolding get_orders_for_process get_orders_for_processing query select_orders_processing
get_orders_for_process-keeps w = ground arith

get_orders_for_process-ok :
    (w : World) (orders : List Order)
    → (get_orders_for_process w).0 ≡ ok orders
    → orders ≡ open_orders w.tables
unfolding get_orders_for_process get_orders_for_processing query select_orders_processing
get_orders_for_process-ok w orders e = ground arith

AreSent :
    (t : Tables) (rows : List OrderRow)
    → All Unpaid t.orders
    → All (IsSelected t.orders) rows
    → All (IsSent t.orders) (map scanned_order rows)
AreSent t [] u s = tt
AreSent t (r ∷ rs) u s = (
  record {
    row = r;
    found = s.0.found;
    owner = refl;
    unpaid = find-All Unpaid _ t.orders r u s.0.found s.0.open_;
  },
  AreSent t rs u s.1,
)

AreAnswers :
    (rows : List OrderRow) (os : List Order)
    → All (IsCandidate rows) os
    → All IsStatus os
    → All (IsAnswer rows) os
AreAnswers rows [] c s = tt
AreAnswers rows (o ∷ os) c s = (IsAnswer-of_IsCandidate rows o c.0 s.0, AreAnswers rows os c.1 s.1)

AreNoAdvance :
    (rows : List OrderRow) (os : List Order) → All (IsCandidate rows) os → All NoAdvance os
AreNoAdvance rows [] c = tt
AreNoAdvance rows (o ∷ os) c = (c.0.no_advance, AreNoAdvance rows os c.1)

-- A round leaves the tables as they are, or accounts for answers to different orders.
pub data Credits (t : Tables) : Tables → Type 0 where
  kept : Credits t t
  accounts :
      (os : List Order)
      → AreDistinct os
      → All (IsAnswer t.orders) os
      → All NoAdvance os
      → Credits t (accounted os t)

pub Credits-IsSound : (t t' : Tables) → Credits t t' → IsSound t → IsSound t'
Credits-IsSound t _ kept h = h
Credits-IsSound t _ (accounts os d a n) h = accounted-IsSound os t d a n h

update_orders_and_balances-Credits :
    (os : List Order) (w : World)
    → All (IsCandidate w.tables.orders) os
    → AreDistinct os
    → Credits w.tables (update_orders_and_balances os w).1.tables
unfolding update_orders_and_balances
update_orders_and_balances-Credits os w c d = elim (update_orders_balances_batch-accounted 0 os w) [
  | inl (e, failed, same) ↦ subst (Credits w.tables) (sym same) kept
  | inr (statuses, stored) ↦
      subst (Credits w.tables) (sym stored) (
        accounts os d (AreAnswers w.tables.orders os c statuses)
          (AreNoAdvance w.tables.orders os c))
]

-- How a round ends: nothing is sent to the store, or what the results have changed.
pub data Ends (pool : List Order → Option (List JobResult)) (w : World) (round : World)
    : Type 0 where
  idle : round ≡ (get_orders_for_process w).1 → Ends pool w round
  sends :
      (orders : List Order) (results : List JobResult)
      → (get_orders_for_process w).0 ≡ ok orders
      → pool orders ≡ some results
      → round
        ≡ (update_orders_and_balances
            (changed_orders (collect results).res_orders orders)
            (get_orders_for_process w).1).1
      → Ends pool w round

pub main_accrual_round-Ends :
    (pool : List Order → Option (List JobResult)) (w : World)
    → Ends pool w (main_accrual_round pool w).world
unfolding main_accrual_round after_collect
main_accrual_round-Ends pool w = elim (Result-cases (get_orders_for_process w).0) [
  | inl (e, failed) ↦ idle (ground arith)
  | inr (orders, found) ↦ elim (Bool-cases (is_empty orders)) [
    | inl e ↦ idle (ground arith)
    | inr e ↦ elim (Option-cases (pool orders)) [
      | inl stopped ↦ idle (ground arith)
      | inr (results, delivered) ↦
          elim (Bool-cases (is_empty (changed_orders (collect results).res_orders orders))) [
            | inl e' ↦ idle (ground arith)
            | inr e' ↦ sends orders results found delivered (ground arith)
          ]
    ]
  ]
]

-- A round is its two parts, one after the other.
main_accrual_round-stored_results :
    (pool : List Order → Option (List JobResult)) (w : World)
    → let (r, w') = get_orders_for_process w in
      (main_accrual_round pool w).world
      ≡ elim (sent_orders r) [ none ↦ w' | some orders ↦ stored_results orders (pool orders) w' ]
unfolding main_accrual_round
main_accrual_round-stored_results pool w = ground arith

-- Orders that are in the table and differ, for the same users, and have no points.
abbrev pub Waiting : List OrderRow → List Order → Type 0
Waiting rows os = All (IsSent rows) os × AreDistinct os

open_orders-Waiting :
    (t : Tables) → IsKeyed t.orders → All Unpaid t.orders → Waiting t.orders (open_orders t)
open_orders-Waiting t keyed unpaid =
    let selected = latest_first (filter has_open_status t.orders) in
    let keyed_too =
      IsKeyed-latest_first (filter has_open_status t.orders)
        (IsKeyed-filter has_open_status t.orders keyed) in
    (AreSent t selected unpaid (AreSelected t.orders keyed), AreDistinct-map selected keyed_too)

pub get_orders_for_process-Waiting :
    (w : World) (orders : List Order)
    → (get_orders_for_process w).0 ≡ ok orders
    → IsKeyed w.tables.orders
    → All Unpaid w.tables.orders
    → Waiting (get_orders_for_process w).1.tables.orders orders
get_orders_for_process-Waiting w orders found keyed unpaid =
    rw (get_orders_for_process-ok w orders found, get_orders_for_process-keeps w)
      (open_orders-Waiting w.tables keyed unpaid)

module _ (decode : Bytes → OrderAccrual × Bool) (honest : IsHonest decode) where
  -- What the store is asked for is made of different orders with their answers.
  pub changed_orders-AreCandidates_sent :
      (rows : List OrderRow) (orders : List Order) (results : List JobResult)
      → Waiting rows orders
      → All (IsReply decode orders) results
      → All (IsCandidate rows) (changed_orders (collect results).res_orders orders)
        × AreDistinct (changed_orders (collect results).res_orders orders)
  changed_orders-AreCandidates_sent rows orders results (sent, distinct) replies =
      changed_orders-AreCandidates decode honest rows (collect results).res_orders orders
        (collect-AreKept decode honest rows orders results sent replies) distinct

  sent-Credits :
      (orders : List Order) (results : List JobResult) (w : World)
      → Waiting w.tables.orders orders
      → All (IsReply decode orders) results
      → Credits w.tables
          (update_orders_and_balances
            (changed_orders (collect results).res_orders orders)
            w).1.tables
  sent-Credits orders results w sent replies =
      let (candidates, different) =
        changed_orders-AreCandidates_sent w.tables.orders orders results sent replies in
      update_orders_and_balances-Credits (changed_orders (collect results).res_orders orders) w
        candidates different

  pub stored_results-Credits :
      (orders : List Order) (results : Option (List JobResult)) (w : World)
      → Waiting w.tables.orders orders
      → ((rs : List JobResult) → results ≡ some rs → All (IsReply decode orders) rs)
      → Credits w.tables (stored_results orders results w).tables
  unfolding after_collect
  stored_results-Credits orders none w sent replies = kept
  stored_results-Credits orders (some rs) w sent replies =
      elim (Bool-cases (is_empty (changed_orders (collect rs).res_orders orders))) [
        | inl e ↦
            let same : w ≡ (after_collect orders (collect rs) w).world = ground (arith, e) in
            subst (λ v. Credits w.tables v.tables) same kept
        | inr e ↦
            let upd_orders = changed_orders (collect rs).res_orders orders in
            let same : (update_orders_and_balances upd_orders w).1
                ≡ (after_collect orders (collect rs) w).world =
              ground (arith, e) in
            subst (λ v. Credits w.tables v.tables) same
              (sent-Credits orders rs w sent (replies rs refl))
      ]

  pub main_accrual_round-Credits :
      (pool : List Order → Option (List JobResult)) (w : World)
      → ((orders : List Order) (results : List JobResult)
          → pool orders ≡ some results
          → All (IsReply decode orders) results)
      → IsSound w.tables
      → Credits w.tables (main_accrual_round pool w).world.tables
  main_accrual_round-Credits pool w replies h =
      go (main_accrual_round pool w).world (main_accrual_round-Ends pool w)
    where
      w' : World
      w' = (get_orders_for_process w).1

      same : w'.tables ≡ w.tables
      same = get_orders_for_process-keeps w

      go : (round : World) → Ends pool w round → Credits w.tables round.tables
      go round (idle e) = rw (e, same) kept
      go round (sends orders results found delivered e) =
          subst (λ t. Credits t round.tables) same
            (subst (λ v. Credits w'.tables v.tables) (sym e)
              (sent-Credits orders results w'
                (get_orders_for_process-Waiting w orders found h.keyed h.unpaid)
                (replies orders results delivered)))

  -- A round of the accrual client keeps the books balanced, the order numbers different and the open
  -- orders without points, whatever breaks on the way, if each result that the pool delivers is a
  -- worker's for one of the orders, and the accrual system answers with points that are not negative
  -- and are 0 for an order that it leaves open.
  pub main_accrual_round-IsSound :
      (pool : List Order → Option (List JobResult)) (w : World)
      → ((orders : List Order) (results : List JobResult)
          → pool orders ≡ some results
          → All (IsReply decode orders) results)
      → IsSound w.tables
      → IsSound (main_accrual_round pool w).world.tables
  main_accrual_round-IsSound pool w replies h =
      Credits-IsSound w.tables (main_accrual_round pool w).world.tables
        (main_accrual_round-Credits pool w replies h) h
