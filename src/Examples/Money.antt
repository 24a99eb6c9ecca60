-- ===== src/Examples/Money.antt =====
-- Withdrawals and credits on the sample tables.
use gomart.Prelude.{◌≡◌, ◌⊎◌, refl, [], ◌∷◌, All, codes, arith, ok, err, if◌then◌else◌}
use gomart.Prelude.Int.{pos, ◌+ℤ◌, ◌-ℤ◌}
use gomart.Store
use gomart.Store.{of_cents, is_less, Order}
use gomart.Tables.{PgError, decreased, balance_not_enough}
use gomart.Conn.{World, served, unanswered, transaction}
use gomart.Conn.Laws.{Kept, Committed, transaction-atomic}
use gomart.PgStore.{insert_withdraw, withdraw_body}
use gomart.PgStore.Withdrawal.{
  Debits, current_of, debited, insert_withdraw-Debits, insert_withdraw-served,
}
use gomart.Batch.{update_orders_balances_batch}
use gomart.Batch.Effect.{IsStatus, accounted, update_orders_balances_batch-accounted}
use gomart.Ledger.{IsBalanced, total_accrual, total_sum}
use gomart.Service.{Withdraw}
use gomart.Examples.{tables, world}

-- The answer to the last commit is lost.
abbrev late : World
late = record {
  tables = tables;
  net = served ∷ served ∷ served ∷ served ∷ served ∷ unanswered ∷ [];
}

abbrev withdraw : Store.Withdraw
withdraw = record { user_id = 1; order_id = 79927398713; sum = of_cents (pos 12000); time_c = 0 }

abbrev request : Withdraw
request = record { order_id = codes "79927398713"; sum = of_cents (pos 12000); time_c = 0 }

abbrev credit : Order
credit = record {
  order_id = 12345678903;
  user_id = 1;
  status = "PROCESSED";
  accrual = of_cents (pos 725);
  time_u = 5;
  time_c = 5;
}

tables-IsBalanced : IsBalanced tables
unfolding total_accrual total_sum ◌+ℤ◌
tables-IsBalanced = record {
  spent = λ id. ground arith;
  earned = λ id. ground arith;
  covered = λ id. ground arith;
}

insert_withdraw-Debits_example :
    let (r, world') = insert_withdraw withdraw late in
    ((e : PgError) × (r ≡ err e) × (world'.tables ≡ late.tables))
    ⊎ Debits withdraw late.tables world'.tables
insert_withdraw-Debits_example = insert_withdraw-Debits withdraw late

insert_withdraw-served_example : insert_withdraw withdraw world ≡ (
    if is_less (current_of 1 tables.balances) (of_cents (pos 12000))
    then (err balance_not_enough, world)
    else (ok tt, record { tables = debited withdraw tables; net = [] }))
unfolding decreased ◌-ℤ◌ ◌+ℤ◌
insert_withdraw-served_example =
    insert_withdraw-served withdraw tables refl refl refl (refl, refl) refl

transaction-atomic_example :
    let out = transaction (withdraw_body withdraw) late in
    Kept late.tables out ⊎ Committed (withdraw_body withdraw) late out.1
transaction-atomic_example = transaction-atomic (withdraw_body withdraw) late

update_orders_balances_batch-accounted_example :
    let (r, w') = update_orders_balances_batch 1 (credit ∷ []) late in
    ((e : PgError) × (r ≡ err e) × (w'.tables ≡ late.tables))
    ⊎ (All IsStatus (credit ∷ []) × (w'.tables ≡ accounted (credit ∷ []) late.tables))
update_orders_balances_batch-accounted_example =
    update_orders_balances_batch-accounted 1 (credit ∷ []) late
