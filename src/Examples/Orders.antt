-- ===== src/Examples/Orders.antt =====
-- Two answers to the order that is open, one of them for an order that is not.
use mathlib.Core.List.Permᴰ.{swap}
use gomart.Prelude.{
  ◌+◌, ◌*◌, leb, if◌then◌else◌, ◌≡◌, refl, ap, Option, none, some, List, [], ◌∷◌, ok, arith,
}
use gomart.Prelude.Int.{pos, pos_part}
use gomart.Store.{Order, of_cents}
use gomart.Tables.{select_orders_processing}
use gomart.Conn.{query}
use gomart.PgStore.{get_orders_for_processing}
use gomart.Service.{get_orders_for_process}
use gomart.Pool.{JobResult}
use gomart.Accrual.{
  main_accrual_round, sleep_time, sleep_cancellable, collect, collect_from, collect_step,
  after_collect, changed_orders,
}
use gomart.Accrual.Schedules.{main_accrual_round-Permᴰ}
use gomart.Accrual.Waits.{IsLongest, main_accrual_round-IsLongest}
use gomart.Examples.{world}
use gomart.Examples.Workers.{open_order}

abbrev paid : JobResult
paid = record {
  id = 1;
  result = 200;
  wait_sec = pos 0;
  value = record open_order { status = "PROCESSED"; accrual = of_cents (pos 700) };
  err = none;
}

abbrev busy : JobResult
busy = record {
  id = 2;
  result = 429;
  wait_sec = pos 60;
  value = record open_order { order_id = 2377225624 };
  err = none;
}

abbrev one_way : List Order → Option (List JobResult)
one_way orders = some (paid ∷ busy ∷ [])

abbrev other_way : List Order → Option (List JobResult)
other_way orders = some (busy ∷ paid ∷ [])

one_open : (get_orders_for_process world).0 ≡ ok (open_order ∷ [])
unfolding get_orders_for_process get_orders_for_processing query select_orders_processing
one_open = refl

main_accrual_round-Permᴰ_example :
    main_accrual_round one_way world ≡ main_accrual_round other_way world
main_accrual_round-Permᴰ_example =
    main_accrual_round-Permᴰ one_way other_way world (open_order ∷ []) (paid ∷ busy ∷ [])
      (busy ∷ paid ∷ []) one_open refl refl (swap refl refl)
      (((λ e. ground (arith, e)), tt), (tt, tt))

waits_a_minute : (main_accrual_round one_way world).wait_sec ≡ pos 60
unfolding main_accrual_round get_orders_for_process get_orders_for_processing query
    select_orders_processing collect collect_from collect_step after_collect changed_orders
waits_a_minute = refl

main_accrual_round-IsLongest_example :
    let wait = (main_accrual_round one_way world).wait_sec in
    let seconds = 2 + pos_part wait in
    IsLongest (pos 0) (paid ∷ busy ∷ []) wait
    × (sleep_cancellable (sleep_time (pos 2) wait)
        ≡ (if leb seconds 9223372036 then seconds * 1000000000 else 0))
main_accrual_round-IsLongest_example =
    main_accrual_round-IsLongest one_way world (open_order ∷ []) (paid ∷ busy ∷ []) 2 one_open refl
      refl (omega (arith, ap pos_part waits_a_minute))
