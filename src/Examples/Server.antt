-- ===== src/Examples/Server.antt =====
-- The weak points of withdrawals and rounds on the sample tables.
use gomart.Prelude.{◌≡◌, refl, Option, none, some, List, [], ◌∷◌, ok, arith, ◌+◌}
use gomart.Prelude.Int.{pos, negsuc, ◌+ℤ◌, ◌-ℤ◌}
use gomart.Store.{Order, Withdraw, of_cents, is_less}
use gomart.Tables.{parse_status, select_orders_processing}
use gomart.Conn.{query}
use gomart.PgStore.{insert_withdraw, get_orders_for_processing}
use gomart.PgStore.Withdrawal.{current_of}
use gomart.Service.{get_orders_for_process}
use gomart.Pool.{JobResult}
use gomart.Accrual.{collect_step, collect_from, collect, changed_orders, main_accrual_round}
use gomart.Pool.Workers.Replies.{Among, first}
use gomart.Accrual.Blocked.{main_accrual_round-blocked}
use gomart.System.Overdraw.{insert_withdraw-negative}
use gomart.System.Race.{one, two, other, overtaken_withdraw, overtaken_withdraw-insert_withdraw}
use gomart.Examples.{tables, world}
use gomart.Examples.Workers.{open_order}

one_open : (get_orders_for_process world).0 ≡ ok (open_order ∷ [])
unfolding get_orders_for_process get_orders_for_processing query select_orders_processing
one_open = refl

insert_withdraw-negative_example :
    let w : Withdraw = record {
      user_id = 1;
      order_id = 79927398713;
      sum = of_cents (negsuc 99);
      time_c = 0;
    } in
    let (r, w') = insert_withdraw w world in
    (r ≡ ok tt) × (current_of 1 w'.tables.balances ≡ pos 50000 +ℤ pos (99 + 1))
unfolding ◌+ℤ◌ ◌-ℤ◌
insert_withdraw-negative_example =
    insert_withdraw-negative 1 79927398713 99 tables
      (record { user_id = 1; current = pos 50000; withdrawn = pos 0; changed_at = 4 }) refl
      (omega arith) refl refl refl refl refl refl

-- 300 points twice from 500.
overtaken_withdraw-insert_withdraw_example :
    let sum = of_cents (pos 30000) in
    let first_call = one 1 79927398713 2377225624 sum sum in
    let second_call = two 1 79927398713 2377225624 sum sum in
    let before = other 1 79927398713 2377225624 sum sum in
    ((insert_withdraw first_call world).0 ≡ ok tt)
    × ((overtaken_withdraw before second_call world).0 ≡ ok tt)
    × (current_of 1 (overtaken_withdraw before second_call world).1.tables.balances
        ≡ (pos 50000 -ℤ pos 30000) -ℤ pos 30000)
unfolding is_less ◌+ℤ◌ ◌-ℤ◌
overtaken_withdraw-insert_withdraw_example =
    overtaken_withdraw-insert_withdraw 1 79927398713 2377225624 (of_cents (pos 30000))
      (of_cents (pos 30000)) tables
      (record { user_id = 1; current = pos 50000; withdrawn = pos 0; changed_at = 4 }) refl refl
      refl refl refl refl refl refl (refl, refl) (refl, refl) refl refl refl

-- The body of the answer could not be decoded.
abbrev unread : JobResult
unread = record {
  id = 1;
  result = 200;
  wait_sec = pos 0;
  value = record open_order { status = "" };
  err = none;
}

abbrev unread_pool : List Order → Option (List JobResult)
unread_pool orders = some (unread ∷ [])

unread-Among :
    Among
      (changed_orders (collect (unread ∷ [])).res_orders (open_order ∷ []))
      (record open_order { status = "" })
unfolding changed_orders collect collect_from collect_step
unread-Among = first

main_accrual_round-blocked_example :
    (main_accrual_round unread_pool world).world.tables ≡ world.tables
unfolding parse_status
main_accrual_round-blocked_example =
    main_accrual_round-blocked unread_pool world (open_order ∷ []) (unread ∷ [])
      (record open_order { status = "" }) one_open refl unread-Among refl
