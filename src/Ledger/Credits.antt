-- ===== src/Ledger/Credits.antt =====
-- Crediting the orders that the accrual system has answered for keeps the books balanced.
use gomart.Prelude.{
  ℕ, ◌≡◌, ◌≢◌, refl, ap, ◌∙◌, Option, none, some, List, [], ◌∷◌, ◌==◌, if◌then◌else◌, arith, All,
}
use gomart.Prelude.Int.{ℤ, pos, pos_part, neg_part, ◌+ℤ◌, ◌≤ℤ◌, int_laws}
use gomart.Store.{Order}
use gomart.Tables.{parse_status, has_order, of_user, increased}
use gomart.Tables.Rows.{OrderStatus, OrderRow, BalanceRow, Tables, find, put_order}
use gomart.Tables.Keys.{find-put_order, find-has_order, increased-user_id}
use gomart.PgStore.Withdrawal.{held_current, held_withdrawn, current_of, withdrawn_of}
use gomart.Batch.Effect.{update_row, update_rows, grow, grow_rows, accounted}
use gomart.Ledger.{IsBalanced, total_accrual}
use gomart.Ledger.Sums.{current_of-put_balance, withdrawn_of-put_balance, total_accrual-put_order}

-- The points that the orders bring a user.
pub gain : ℕ → List Order → ℤ
gain id [] = pos 0
gain id (o ∷ os) = (if o.user_id == id then o.accrual.cents else pos 0) +ℤ gain id os

increased-current :
    (id : ℕ) (c : ℤ) (now : ℕ) (old : Option BalanceRow)
    → (increased id c (pos 0) now old).current ≡ held_current old +ℤ c
unfolding increased
increased-current id c now none = omega int_laws
increased-current id c now (some r) = refl

increased-withdrawn :
    (id : ℕ) (c : ℤ) (now : ℕ) (old : Option BalanceRow)
    → (increased id c (pos 0) now old).withdrawn ≡ held_withdrawn old
unfolding increased
increased-withdrawn id c now none = refl
increased-withdrawn id c now (some r) = refl

module _ (now : ℕ) where
  pub grow-current :
      (id : ℕ) (o : Order) (rows : List BalanceRow)
      → current_of id (grow now o rows)
        ≡ current_of id rows +ℤ (if o.user_id == id then o.accrual.cents else pos 0)
  unfolding grow
  grow-current id o rows =
      let old = find (of_user o.user_id) rows in
      let row = increased o.user_id o.accrual.cents (pos 0) now old in
      rw
        (
          current_of-put_balance id row rows,
          increased-user_id o.user_id o.accrual.cents (pos 0) now old,
          increased-current o.user_id o.accrual.cents now old,
        )
        (grind int_laws)

  pub grow-withdrawn :
      (id : ℕ) (o : Order) (rows : List BalanceRow)
      → withdrawn_of id (grow now o rows) ≡ withdrawn_of id rows
  unfolding grow
  grow-withdrawn id o rows =
      let old = find (of_user o.user_id) rows in
      let row = increased o.user_id o.accrual.cents (pos 0) now old in
      rw
        (
          withdrawn_of-put_balance id row rows,
          increased-user_id o.user_id o.accrual.cents (pos 0) now old,
          increased-withdrawn o.user_id o.accrual.cents now old,
        )
        (grind arith)

  pub grow_rows-current :
      (id : ℕ) (os : List Order) (rows : List BalanceRow)
      → current_of id (grow_rows now os rows) ≡ current_of id rows +ℤ gain id os
  unfolding grow_rows gain
  grow_rows-current id [] rows = omega int_laws
  grow_rows-current id (o ∷ os) rows =
      rw (grow_rows-current id os (grow now o rows), grow-current id o rows) (omega int_laws)

  pub grow_rows-withdrawn :
      (id : ℕ) (os : List Order) (rows : List BalanceRow)
      → withdrawn_of id (grow_rows now os rows) ≡ withdrawn_of id rows
  unfolding grow_rows
  grow_rows-withdrawn id [] rows = refl
  grow_rows-withdrawn id (o ∷ os) rows =
      grow_rows-withdrawn id os (grow now o rows) ∙ grow-withdrawn id o rows

-- An order as it comes back from the accrual system: it is in the table, for the same user, and has
-- brought no points yet; its new status is one of the column's, and its points are not negative.
pub record IsAnswer (rows : List OrderRow) (o : Order) : Type 0 where
  pub row : OrderRow
  pub status : OrderStatus
  pub found : find (has_order o.order_id) rows ≡ some row
  pub owner : row.user_id ≡ o.user_id
  pub unpaid : row.accrual ≡ pos 0
  pub parsed : parse_status o.status ≡ some status
  pub gains : pos 0 ≤ℤ o.accrual.cents

-- No order is answered twice.
abbrev pub AreDistinct : List Order → Type 0
AreDistinct [] = Unit
AreDistinct (o ∷ os) = All (λ p. p.order_id ≢ o.order_id) os × AreDistinct os

module _ (now : ℕ) where
  abbrev pub answered_row : (o : Order) (rows : List OrderRow) → IsAnswer rows o → OrderRow
  answered_row o rows a = record a.row {
    status = a.status;
    accrual = o.accrual.cents;
    changed_at = now;
  }

  pub update_row-IsAnswer :
      (o : Order) (rows : List OrderRow) (a : IsAnswer rows o)
      → update_row now o rows ≡ put_order (answered_row o rows a) rows
  unfolding update_row
  update_row-IsAnswer o rows a = ground (arith, a.parsed, a.found)

  pub find-update_row :
      (id : ℕ) (o : Order) (rows : List OrderRow) (a : IsAnswer rows o)
      → find (has_order id) (update_row now o rows)
        ≡ (if o.order_id == id then some (answered_row o rows a) else find (has_order id) rows)
  find-update_row id o rows a =
      rw
        (
          update_row-IsAnswer o rows a,
          find-put_order id (answered_row o rows a) rows,
          find-has_order o.order_id rows a.row a.found,
        )
        refl

  -- An answer for another order stays one.
  IsAnswer-update_row :
      (o p : Order) (rows : List OrderRow)
      → IsAnswer rows o
      → p.order_id ≢ o.order_id
      → IsAnswer rows p
      → IsAnswer (update_row now o rows) p
  IsAnswer-update_row o p rows a ne b = record {
    row = b.row;
    status = b.status;
    found = find-update_row p.order_id o rows a ∙ ground (arith, b.found);
    owner = b.owner;
    unpaid = b.unpaid;
    parsed = b.parsed;
    gains = b.gains;
  }

  pub AreAnswers-update_row :
      (o : Order) (ps : List Order) (rows : List OrderRow)
      → IsAnswer rows o
      → All (λ p. p.order_id ≢ o.order_id) ps
      → All (IsAnswer rows) ps
      → All (IsAnswer (update_row now o rows)) ps
  AreAnswers-update_row o [] rows a ne b = tt
  AreAnswers-update_row o (p ∷ ps) rows a ne b =
      (IsAnswer-update_row o p rows a ne.0 b.0, AreAnswers-update_row o ps rows a ne.1 b.1)

  update_row-accrual :
      (id : ℕ) (o : Order) (rows : List OrderRow)
      → IsAnswer rows o
      → total_accrual id (update_row now o rows)
        ≡ total_accrual id rows +ℤ (if o.user_id == id then o.accrual.cents else pos 0)
  update_row-accrual id o rows a =
      let row = answered_row o rows a in
      let number = find-has_order o.order_id rows a.row a.found in
      let found : find (has_order row.order_id) rows ≡ some a.row =
        ap (λ k. find (has_order k) rows) number ∙ a.found in
      let moved = total_accrual-put_order id row a.row rows found refl in
      rw (update_row-IsAnswer o rows a) (grind (int_laws, moved, a.owner, a.unpaid))

  update_rows-accrual :
      (id : ℕ) (os : List Order) (rows : List OrderRow)
      → AreDistinct os
      → All (IsAnswer rows) os
      → total_accrual id (update_rows now os rows) ≡ total_accrual id rows +ℤ gain id os
  unfolding update_rows gain
  update_rows-accrual id [] rows d a = omega int_laws
  update_rows-accrual id (o ∷ os) rows d a =
      rw
        (
          update_rows-accrual id os (update_row now o rows) d.1
              (AreAnswers-update_row o os rows a.0 d.0 a.1),
          update_row-accrual id o rows a.0,
        )
        (omega int_laws)

pub gain_nonneg :
    (id : ℕ) (os : List Order) (rows : List OrderRow) → All (IsAnswer rows) os → pos 0 ≤ℤ gain id os
unfolding gain
gain_nonneg id [] rows a = omega arith
gain_nonneg id (o ∷ os) rows (a, as_) = grind (int_laws, a.gains, gain_nonneg id os rows as_)

-- Accounting for answers to different orders that have brought no points yet keeps the books
-- balanced: what a user's orders have brought grows by what the user has.
pub accounted-IsBalanced :
    (os : List Order) (t : Tables)
    → AreDistinct os
    → All (IsAnswer t.orders) os
    → IsBalanced t
    → IsBalanced (accounted os t)
accounted-IsBalanced os t d a b = record {
  spent = λ id. grow_rows-withdrawn t.now id os t.balances ∙ b.spent id;
  earned = λ id.
      rw
        (
          grow_rows-current t.now id os t.balances,
          grow_rows-withdrawn t.now id os t.balances,
          update_rows-accrual t.now id os t.orders d a,
        )
        (omega (int_laws, ap pos_part (b.earned id), ap neg_part (b.earned id)));
  covered = λ id.
      rw (grow_rows-current t.now id os t.balances)
        (omega (int_laws, b.covered id, gain_nonneg id os t.orders a));
}
