-- ===== src/System/Overdraw.antt =====
-- A withdrawal of a negative sum: `PostWithdraw` of internal/gophermart/service/service.go and
-- `InsertWithdraw` of internal/common/store/pg/pg.go do not refuse it.
use gomart.Prelude.{ℕ, ◌≡◌, refl, ap, ◌∙◌, true, false, none, some, ok, arith, [], ◌+◌}
use gomart.Prelude.Int.{ℤ, pos, negsuc, ◌-ℤ◌, ◌+ℤ◌, ◌≤ℤ◌, int_laws}
use gomart.Store.{of_cents, is_less, Withdraw}
use gomart.Tables.{of_user, decreased, fits_bigint, fits_numeric, has_withdrawal}
use gomart.Tables.Rows.{BalanceRow, Tables, find}
use gomart.PgStore.{insert_withdraw}
use gomart.PgStore.Withdrawal.{current_of, debited, insert_withdraw-served}
use gomart.Ledger.Sums.{current_of-put_balance}

is_less-negative : (a : ℤ) (n : ℕ) → pos 0 ≤ℤ a → is_less a (of_cents (negsuc n)) ≡ false
unfolding is_less
is_less-negative (pos a) n h = ground arith
is_less-negative (negsuc a) n h = absurd (omega (arith, h))

sub-negative : (a : ℤ) (n : ℕ) → a -ℤ negsuc n ≡ a +ℤ pos (n + 1)
sub-negative a n = omega int_laws

-- With no fault on the way, a user who has a balance that is not negative and asks for a negative
-- sum, with values that fit their columns and a new order number, is served, and the balance grows
-- by the sum's amount.
pub insert_withdraw-negative :
    (user_id order_id n : ℕ) (t : Tables) (row : BalanceRow)
    → find (of_user user_id) t.balances ≡ some row
    → pos 0 ≤ℤ row.current
    → fits_bigint user_id ≡ true
    → fits_bigint order_id ≡ true
    → fits_numeric (negsuc n) ≡ true
    → fits_numeric (row.current -ℤ negsuc n) ≡ true
    → fits_numeric (row.withdrawn +ℤ negsuc n) ≡ true
    → find (has_withdrawal order_id) t.withdrawals ≡ none
    → let w : Withdraw = record {
      user_id = user_id;
      order_id = order_id;
      sum = of_cents (negsuc n);
      time_c = 0;
    } in
      let (r, w') = insert_withdraw w (record { tables = t; net = [] }) in
      (r ≡ ok tt) × (current_of user_id w'.tables.balances ≡ row.current +ℤ pos (n + 1))
unfolding decreased
insert_withdraw-negative user_id order_id n t row found positive fu fo fs fc fw fresh =
    let w : Withdraw = record {
      user_id = user_id;
      order_id = order_id;
      sum = of_cents (negsuc n);
      time_c = 0;
    } in
    let served = insert_withdraw-served w t fu fo fs (rw found (fc, fw)) fresh in
    let enough : is_less (current_of user_id t.balances) (of_cents (negsuc n)) ≡ false =
      rw found (is_less-negative row.current n positive) in
    let result : insert_withdraw w (record { tables = t; net = [] })
        ≡ (ok tt, record { tables = debited w t; net = [] }) =
      rw (served, enough) refl in
    (
      ap (λ p. p.0) result,
      ap (λ p. current_of user_id p.1.tables.balances) result
          ∙ current_of-put_balance user_id
              (decreased user_id (negsuc n) (negsuc n) t.now (find (of_user user_id) t.balances))
              t.balances
          ∙ rw found (ground (arith, sub-negative row.current n)),
    )
