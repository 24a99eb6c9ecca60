-- ===== src/Accrual/Blocked.antt =====
-- An answer of the accrual system that cannot be read: `newPGetReq` of
-- internal/common/httpclientpool/httpclientpool.go keeps the decoding error in a field that no code
-- reads, so the order goes on with an empty status.
use gomart.Prelude.{◌≡◌, ap, ◌∙◌, inl, inr, Option, none, some, List, ok, All, arith}
use gomart.Store.{Order}
use gomart.Tables.{parse_status}
use gomart.Conn.{World}
use gomart.Batch.Effect.{IsStatus, update_orders_balances_batch-accounted}
use gomart.Service.{get_orders_for_process, update_orders_and_balances}
use gomart.Pool.{JobResult}
use gomart.Accrual.{collect, changed_orders, main_accrual_round}
use gomart.Pool.Workers.Replies.{Among, first, later}
use gomart.Accrual.Cycle.{Ends, idle, sends, main_accrual_round-Ends, get_orders_for_process-keeps}

no_status :
    (os : List Order) (o : Order) → Among os o → All IsStatus os → parse_status o.status ≡ none → ⊥
no_status _ o first (s, _) e = ground (arith, s.1)
no_status _ o (later m) (_, rest) e = no_status _ o m rest e

update_orders_and_balances-blocked :
    (os : List Order) (o : Order) (w : World)
    → Among os o
    → parse_status o.status ≡ none
    → (update_orders_and_balances os w).1.tables ≡ w.tables
unfolding update_orders_and_balances
update_orders_and_balances-blocked os o w m e =
    elim (update_orders_balances_batch-accounted 0 os w) [
      | inl (x, failed, kept) ↦ kept
      | inr (statuses, stored) ↦ absurd (no_status os o m statuses e)
    ]

-- If one of the changed orders of a round has a status that is not one of the column's, the round
-- stores nothing, for that order and for all the others.
pub main_accrual_round-blocked :
    (pool : List Order → Option (List JobResult)) (w : World) (orders : List Order)
    (results : List JobResult) (o : Order)
    → (get_orders_for_process w).0 ≡ ok orders
    → pool orders ≡ some results
    → Among (changed_orders (collect results).res_orders orders) o
    → parse_status o.status ≡ none
    → (main_accrual_round pool w).world.tables ≡ w.tables
main_accrual_round-blocked pool w orders results o found delivered m e =
    go (main_accrual_round pool w).world (main_accrual_round-Ends pool w)
  where
    w' : World
    w' = (get_orders_for_process w).1

    go : (round : World) → Ends pool w round → round.tables ≡ w.tables
    go round (idle same) = ap (λ v. v.tables) same ∙ get_orders_for_process-keeps w
    go round (sends orders' results' found' delivered' same) =
        let so : orders ≡ orders' = cc in
        let sr : results ≡ results' = cc in
        ap (λ v. v.tables) same
        ∙ update_orders_and_balances-blocked (changed_orders (collect results').res_orders orders')
            o w' (rw (← so, ← sr) m) e
        ∙ get_orders_for_process-keeps w
