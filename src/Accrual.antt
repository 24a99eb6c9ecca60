-- ===== src/Accrual.antt =====
-- The accrual client: `SendOrdersToAccrual` of internal/gophermart/service/service.go and the loop of
-- internal/gophermart/accrual/accrual.go.
pub mod Answers
pub mod Cycle
pub mod Blocked
pub mod Schedules
pub mod Waits
use gomart.Prelude.{
  ℕ, ◌+◌, ◌-◌, ◌*◌, ◌%◌, ◌^◌, ltb, String, Bool, true, false, not, ◌&&◌, Option, none, some, List,
  [], ◌∷◌, length, is_empty, ◌==◌, if◌then◌else◌, str_eq, Result, ok, err,
}
use gomart.Prelude.Int.{ℤ, pos, negsuc, pos_part, neg_part, sub_ℕ, ltb_ℤ, ◌+ℤ◌}
use gomart.Store.{Order}
use gomart.Conn.{World}
use gomart.Pool.{JobResult, http_retry_code, http_success_code}
use gomart.Service.{ServiceError, get_orders_for_process, update_orders_and_balances}

-- The map `resOrders` and `waitSec`.
pub record Collected : Type 0 where
  pub res_orders : List (ℕ × Order)
  pub wait_sec : ℤ

-- `resOrders[id] = v`
abbrev pub put_order : ℕ → Order → List (ℕ × Order) → List (ℕ × Order)
put_order id v [] = (id, v) ∷ []
put_order id v ((k, u) ∷ m) = if k == id then (id, v) ∷ m else (k, u) ∷ put_order id v m

-- `val, ok := resOrders[id]`
abbrev pub get_order : ℕ → List (ℕ × Order) → Option Order
get_order id [] = none
get_order id ((k, u) ∷ m) = if k == id then some u else get_order id m

abbrev has_no_error : JobResult → Bool
has_no_error res = elim res.err [ none ↦ true | some _ ↦ false ]

-- One round of `for res := range results`.
unfoldable pub collect_step : Collected → JobResult → Collected
collect_step c res =
    if has_no_error res
    then (if res.result == http_success_code
        then record c { res_orders = put_order res.value.order_id res.value c.res_orders }
        else if res.result == http_retry_code
        then (if ltb_ℤ c.wait_sec res.wait_sec then record c { wait_sec = res.wait_sec } else c)
        else c)
    else c

unfoldable pub collect_from : Collected → List JobResult → Collected
collect_from c [] = c
collect_from c (res ∷ results) = collect_from (collect_step c res) results

-- The results in the order in which the workers deliver them.
unfoldable pub collect : List JobResult → Collected
unfolding collect_from
collect = collect_from (record { res_orders = []; wait_sec = pos 0 })

-- `if val, ok := resOrders[orders[i].OrderID]; ok { if orders[i].Status != val.Status { … } }`
abbrev pub changed_order : List (ℕ × Order) → Order → Option Order
changed_order res o = elim (get_order o.order_id res) [
  | none ↦ none
  | some val ↦ if not (str_eq o.status val.status) then some val else none
]

unfoldable pub changed_orders : List (ℕ × Order) → List Order → List Order
changed_orders res [] = []
changed_orders res (o ∷ os) =
    let rest = changed_orders res os in
    elim (changed_order res o) [ none ↦ rest | some val ↦ val ∷ rest ]

-- What one round of `mainAccrual` leaves: the wait before the next, and the world. `pool` is what
-- the client pool delivers for the orders, or `none` where the context is cancelled meanwhile.
pub record Round : Type 0 where
  pub wait_sec : ℤ
  pub world : World

abbrev positive_part : ℤ → ℤ
positive_part w = if ltb_ℤ (pos 0) w then w else pos 0

unfoldable pub after_collect : List Order → Collected → World → Round
after_collect orders c w =
    let upd_orders = changed_orders c.res_orders orders in
    if is_empty upd_orders
    then record { wait_sec = positive_part c.wait_sec; world = w }
    else record {
      wait_sec = positive_part c.wait_sec;
      world = (update_orders_and_balances upd_orders w).1;
    }

-- 64 bits, and `time.Duration(a.cfg.PollInterval+waitSec)*time.Second` with them.
unfoldable pub to_int64 : ℤ → ℤ
to_int64 n =
    let r = (pos_part n % 2 ^ 64 + (2 ^ 64 - neg_part n % 2 ^ 64)) % 2 ^ 64 in
    if ltb r (2 ^ 63) then pos r else negsuc (2 ^ 64 - r - 1)

abbrev pub nanoseconds : ℤ → ℤ
nanoseconds n = sub_ℕ (pos_part n * 1000000000) (neg_part n * 1000000000)

unfoldable pub sleep_time : ℤ → ℤ → ℤ
sleep_time poll_interval wait_sec = to_int64 (nanoseconds (to_int64 (poll_interval +ℤ wait_sec)))

-- `utils.SleepCancellable`, where nothing cancels it: a timeout that is not positive is over at once.
abbrev pub sleep_cancellable : ℤ → ℕ
sleep_cancellable t = pos_part t

unfoldable pub main_accrual_round : (List Order → Option (List JobResult)) → World → Round
main_accrual_round pool w =
    let (r, w') = get_orders_for_process w in
    elim r [
      | err _ ↦ record { wait_sec = pos 0; world = w' }
      | ok orders ↦
          if is_empty orders then record { wait_sec = pos 0; world = w' } else elim (pool orders) [
            | none ↦ record { wait_sec = pos 0; world = w' }
            | some results ↦ after_collect orders (collect results) w'
          ]
    ]

-- A round in two parts, between which requests are served: the orders that it sends, if there are any,
-- and what it does to the store with the results.
abbrev pub sent_orders : Result ServiceError (List Order) → Option (List Order)
sent_orders (err _) = none
sent_orders (ok orders) = if is_empty orders then none else some orders

abbrev pub stored_results : List Order → Option (List JobResult) → World → World
stored_results orders none w = w
stored_results orders (some results) w = (after_collect orders (collect results) w).world
