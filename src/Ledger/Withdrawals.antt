-- ===== src/Ledger/Withdrawals.antt =====
-- A withdrawal keeps the books balanced.
use gomart.Prelude.{
  ℕ, ◌≡◌, refl, sym, subst, inl, inr, false, Option, none, some, ◌==◌, if◌then◌else◌, arith,
}
use gomart.Prelude.Int.{ℤ, pos, ◌+ℤ◌, ◌-ℤ◌, ◌≤ℤ◌, int_laws}
use gomart.Store.{Decimal, is_less, Withdraw}
use gomart.Tables.{of_user, decreased}
use gomart.Tables.Rows.{BalanceRow, Tables, find}
use gomart.Tables.Keys.{decreased-user_id}
use gomart.PgStore.Withdrawal.{
  held_current, held_withdrawn, current_of, withdrawn_of, new_row, debited, insert_withdraw-Debits,
}
use gomart.PgStore.{insert_withdraw}
use gomart.Conn.{World}
use gomart.Ledger.{IsBalanced, total_accrual, total_sum}
use gomart.Ledger.Sums.{current_of-put_balance, withdrawn_of-put_balance, total_sum-snoc}

-- The sum that is stored is no more than the balance that covers the sum asked for.
pub is_less-cents : (a : ℤ) (d : Decimal) → is_less a d ≡ false → d.cents ≤ℤ a
unfolding is_less
is_less-cents a d e = ground arith

decreased-current :
    (id : ℕ) (c : ℤ) (now : ℕ) (old : Option BalanceRow)
    → pos 0 ≤ℤ c
    → c ≤ℤ held_current old
    → (decreased id c c now old).current ≡ held_current old -ℤ c
unfolding decreased
decreased-current id c now none h k = omega int_laws
decreased-current id c now (some r) h k = refl

decreased-withdrawn :
    (id : ℕ) (c : ℤ) (now : ℕ) (old : Option BalanceRow)
    → (decreased id c c now old).withdrawn ≡ held_withdrawn old +ℤ c
unfolding decreased
decreased-withdrawn id c now none = omega int_laws
decreased-withdrawn id c now (some r) = refl

module _ (w : Withdraw) (t : Tables) (positive : pos 0 ≤ℤ w.sum.cents)
    (enough : is_less (current_of w.user_id t.balances) w.sum ≡ false) (b : IsBalanced t) where
  abbrev old : Option BalanceRow
  old = find (of_user w.user_id) t.balances

  abbrev row : BalanceRow
  row = decreased w.user_id w.sum.cents w.sum.cents t.now old

  row-user_id : row.user_id ≡ w.user_id
  row-user_id = decreased-user_id w.user_id w.sum.cents w.sum.cents t.now old

  row-current : row.current ≡ current_of w.user_id t.balances -ℤ w.sum.cents
  row-current =
      decreased-current w.user_id w.sum.cents t.now old positive
        (is_less-cents (current_of w.user_id t.balances) w.sum enough)

  row-withdrawn : row.withdrawn ≡ withdrawn_of w.user_id t.balances +ℤ w.sum.cents
  row-withdrawn = decreased-withdrawn w.user_id w.sum.cents t.now old

  -- The user's own figures, and those of the others.
  pub debited-current :
      (id : ℕ)
      → current_of id (debited w t).balances ≡ (
          if w.user_id == id
          then current_of w.user_id t.balances -ℤ w.sum.cents
          else current_of id t.balances)
  debited-current id = rw (current_of-put_balance id row t.balances, row-user_id, row-current) refl

  pub debited-withdrawn :
      (id : ℕ)
      → withdrawn_of id (debited w t).balances ≡ (
          if w.user_id == id
          then withdrawn_of w.user_id t.balances +ℤ w.sum.cents
          else withdrawn_of id t.balances)
  debited-withdrawn id =
      rw (withdrawn_of-put_balance id row t.balances, row-user_id, row-withdrawn) refl

  debited-spent :
      (id : ℕ) → withdrawn_of id (debited w t).balances ≡ total_sum id (debited w t).withdrawals
  debited-spent id =
      rw (debited-withdrawn id, total_sum-snoc id t.withdrawals (new_row w t))
        (grind (int_laws, b.spent id, b.spent w.user_id))

  debited-earned :
      (id : ℕ)
      → current_of id (debited w t).balances +ℤ withdrawn_of id (debited w t).balances
        ≡ total_accrual id t.orders
  debited-earned id =
      rw (debited-current id, debited-withdrawn id)
        (grind (int_laws, b.earned id, b.earned w.user_id))

  debited-covered : (id : ℕ) → pos 0 ≤ℤ current_of id (debited w t).balances
  debited-covered id =
      rw (debited-current id) (
        grind
          (int_laws, b.covered id, is_less-cents (current_of w.user_id t.balances) w.sum enough))

  -- A withdrawal that the balance covers, of no negative sum, keeps the books balanced.
  pub debited-IsBalanced : IsBalanced (debited w t)
  debited-IsBalanced = record {
    spent = debited-spent;
    earned = debited-earned;
    covered = debited-covered;
  }

-- `InsertWithdraw` with a sum that is not negative keeps the books balanced, whatever breaks on the
-- way.
pub insert_withdraw-IsBalanced :
    (w : Withdraw) (world : World)
    → pos 0 ≤ℤ w.sum.cents
    → IsBalanced world.tables
    → IsBalanced (insert_withdraw w world).1.tables
insert_withdraw-IsBalanced w world positive b = elim (insert_withdraw-Debits w world) [
  | inl (e, failed, kept) ↦ subst IsBalanced (sym kept) b
  | inr (enough, fresh, stored) ↦
      subst IsBalanced (sym stored) (debited-IsBalanced w world.tables positive enough b)
]
