-- ===== src/Concurrent/Balances.antt =====
-- What the written balances come to over the committed ones, also after others have committed.
use gomart.Prelude.{
  ℕ, ◌≡◌, refl, sym, ap, ◌∙◌, Bool-cases, inl, inr, ◌⊎◌, true, Option, none, some, List, [], ◌∷◌,
  ◌++◌, ◌==◌, if◌then◌else◌, arith,
}
use gomart.Prelude.Int.{ℤ, pos, pos_part, neg_part, ◌+ℤ◌, ◌-ℤ◌, ◌≤ℤ◌, int_laws}
use gomart.Store.{Order, Withdraw}
use gomart.Tables.{of_user, decreased}
use gomart.Tables.Keys.{find-put_balance}
use gomart.Tables.Rows.{OrderRow, BalanceRow, find, put_balance}
use gomart.PgStore.Withdrawal.{current_of, withdrawn_of, held_current, held_withdrawn}
use gomart.Batch.Effect.{grow}
use gomart.Ledger.{total_accrual}
use gomart.Ledger.Sums.{current_of-put_balance, withdrawn_of-put_balance, total_accrual-snoc}
use gomart.Ledger.Credits.{grow-current, grow-withdrawn}
use gomart.Concurrent.{put_balances, Queued, update, inc, Batch}
use gomart.Concurrent.Versions.{find-put_balances_free, find-put_balances_over, put_balances-snoc}

-- The row of a withdrawal that has debited the balance.
pub record IsDebited (rows : List BalanceRow) (w : Withdraw) (row : BalanceRow) : Type 0 where
  pub user : row.user_id ≡ w.user_id
  pub current : row.current ≡ current_of w.user_id rows -ℤ w.sum.cents
  pub withdrawn : row.withdrawn ≡ withdrawn_of w.user_id rows +ℤ w.sum.cents

-- Where there is no row, nothing can be asked for but 0.
abbrev pub IsDebitable : List BalanceRow → Withdraw → Type 0
IsDebitable rows w =
    (w.sum.cents ≡ pos 0) ⊎ ((row : BalanceRow) × (find (of_user w.user_id) rows ≡ some row))

pub decreased-IsDebited :
    (rows : List BalanceRow) (w : Withdraw) (now : ℕ)
    → IsDebitable rows w
    → IsDebited rows w
        (decreased w.user_id w.sum.cents w.sum.cents now (find (of_user w.user_id) rows))
unfolding decreased
decreased-IsDebited rows w now (inl nothing) = go (find (of_user w.user_id) rows) refl
  where
    go :
        (old : Option BalanceRow)
        → find (of_user w.user_id) rows ≡ old
        → IsDebited rows w (decreased w.user_id w.sum.cents w.sum.cents now old)
    go none e = record {
      user = refl;
      current = rw (e, nothing) (omega int_laws);
      withdrawn = rw (e, nothing) (omega int_laws);
    }
    go (some row) e = record { user = refl; current = rw e refl; withdrawn = rw e refl }
decreased-IsDebited rows w now (inr (row, found)) =
    rw found (record { user = refl; current = rw found refl; withdrawn = rw found refl })

-- The user's row is the same.
pub IsDebited-same :
    (rows rows' : List BalanceRow) (w : Withdraw) (row : BalanceRow)
    → find (of_user w.user_id) rows' ≡ find (of_user w.user_id) rows
    → IsDebited rows w row
    → IsDebited rows' w row
IsDebited-same rows rows' w row e h = record {
  user = h.user;
  current = h.current ∙ ap (λ r. held_current r -ℤ w.sum.cents) (sym e);
  withdrawn = h.withdrawn ∙ ap (λ r. held_withdrawn r +ℤ w.sum.cents) (sym e);
}

-- Rows are written over, never removed.
pub IsDebitable-put_balance :
    (rows : List BalanceRow) (w : Withdraw) (row : BalanceRow)
    → IsDebitable rows w
    → IsDebitable (put_balance row rows) w
IsDebitable-put_balance rows w row (inl nothing) = inl nothing
IsDebitable-put_balance rows w row (inr (old, found)) =
    elim (Bool-cases (row.user_id == w.user_id)) [
      | inl own ↦ inr (row, find-put_balance w.user_id row rows ∙ rw own refl)
      | inr other ↦ inr (old, find-put_balance w.user_id row rows ∙ rw other found)
    ]

pub IsDebitable-put_balances :
    (bs rows : List BalanceRow) (w : Withdraw)
    → IsDebitable rows w
    → IsDebitable (put_balances bs rows) w
unfolding put_balances
IsDebitable-put_balances [] rows w h = h
IsDebitable-put_balances (b ∷ bs) rows w h =
    IsDebitable-put_balances bs (put_balance b rows) w (IsDebitable-put_balance rows w b h)

-- The points that the statements to come bring the orders, and the balances.
unfoldable pub to_update : ℕ → List Queued → ℤ
to_update id [] = pos 0
to_update id (update o ∷ q) = (if o.user_id == id then o.accrual.cents else pos 0) +ℤ to_update id q
to_update id (inc o ∷ q) = to_update id q

unfoldable pub to_increase : ℕ → List Queued → ℤ
to_increase id [] = pos 0
to_increase id (update o ∷ q) = to_increase id q
to_increase id (inc o ∷ q) =
    (if o.user_id == id then o.accrual.cents else pos 0) +ℤ to_increase id q

-- The balances of the batch, with what is still to come, are the committed ones with the points of its
-- orders.
pub record AddsUp (rows : List BalanceRow) (b : Batch) : Type 0 where
  pub current :
      (id : ℕ)
      → current_of id (put_balances b.balances rows) +ℤ to_increase id b.queue
        ≡ current_of id rows +ℤ (total_accrual id b.orders +ℤ to_update id b.queue)
  pub withdrawn : (id : ℕ) → withdrawn_of id (put_balances b.balances rows) ≡ withdrawn_of id rows
  pub grows : (id : ℕ) → current_of id rows ≤ℤ current_of id (put_balances b.balances rows)

module _ (rows : List BalanceRow) (b : Batch) (h : AddsUp rows b) where
  -- A withdrawal of a user whose balance the batch has not written commits.
  module _ (row : BalanceRow) (free : find (of_user row.user_id) b.balances ≡ none) where
    over-current :
        (id : ℕ)
        → current_of id (put_balances b.balances (put_balance row rows)) ≡ (
            if row.user_id == id then row.current else current_of id (put_balances b.balances rows))
    over-current id =
        ap held_current (find-put_balances_over id b.balances row rows free) ∙ ground arith

    over-withdrawn :
        (id : ℕ)
        → withdrawn_of id (put_balances b.balances (put_balance row rows)) ≡ (
            if row.user_id == id
            then row.withdrawn
            else withdrawn_of id (put_balances b.balances rows))
    over-withdrawn id =
        ap held_withdrawn (find-put_balances_over id b.balances row rows free) ∙ ground arith

    own-balanced :
        (id : ℕ)
        → (row.user_id == id) ≡ true
        → to_increase id b.queue ≡ total_accrual id b.orders +ℤ to_update id b.queue
    own-balanced id own =
        let same : row.user_id ≡ id = ground arith in
        let kept : current_of id (put_balances b.balances rows) ≡ current_of id rows =
          ap held_current (find-put_balances_free id b.balances rows (rw (← same) free)) in
        let e = h.current id in
        omega (int_laws, ap pos_part kept, ap neg_part kept, ap pos_part e, ap neg_part e)

    pub AddsUp-over : AddsUp (put_balance row rows) b
    AddsUp-over = record {
      current = λ id. elim (Bool-cases (row.user_id == id)) [
        | inl own ↦
            rw (over-current id, current_of-put_balance id row rows, own)
              (ap (λ n. row.current +ℤ n) (own-balanced id own))
        | inr other ↦ rw (over-current id, current_of-put_balance id row rows, other) (h.current id)
      ];
      withdrawn = λ id. elim (Bool-cases (row.user_id == id)) [
        | inl own ↦ rw (over-withdrawn id, withdrawn_of-put_balance id row rows, own) refl
        | inr other ↦
            rw (over-withdrawn id, withdrawn_of-put_balance id row rows, other) (h.withdrawn id)
      ];
      grows = λ id. elim (Bool-cases (row.user_id == id)) [
        | inl own ↦ rw (over-current id, current_of-put_balance id row rows, own) (omega arith)
        | inr other ↦ rw (over-current id, current_of-put_balance id row rows, other) (h.grows id)
      ];
    }

  -- A statement that writes an order.
  pub AddsUp-update :
      (o : Order) (q : List Queued) (row : OrderRow)
      → b.queue ≡ update o ∷ q
      → row.user_id ≡ o.user_id
      → row.accrual ≡ o.accrual.cents
      → AddsUp rows (record b { queue = q; orders = b.orders ++ row ∷ [] })
  unfolding to_update to_increase
  AddsUp-update o q row e u a = record {
    current = λ id.
        let before = rw e at (h.current id) in
        rw (total_accrual-snoc id b.orders row, u, a)
          (omega (int_laws, ap pos_part before, ap neg_part before));
    withdrawn = h.withdrawn;
    grows = h.grows;
  }

  -- A statement that writes a balance.
  pub AddsUp-increase :
      (o : Order) (q : List Queued) (now : ℕ)
      → b.queue ≡ inc o ∷ q
      → pos 0 ≤ℤ o.accrual.cents
      → (row : BalanceRow)
      → put_balance row (put_balances b.balances rows) ≡ grow now o (put_balances b.balances rows)
      → AddsUp rows (record b { queue = q; balances = b.balances ++ row ∷ [] })
  unfolding to_update to_increase
  AddsUp-increase o q now e positive row same =
      let seen = put_balances b.balances rows in
      let grown = put_balances-snoc b.balances row rows ∙ same in
      record {
        current = λ id.
            let before = rw e at (h.current id) in
            rw (grown, grow-current now id o seen)
              (omega (int_laws, ap pos_part before, ap neg_part before));
        withdrawn = λ id. rw (grown, grow-withdrawn now id o seen) (h.withdrawn id);
        grows = λ id.
            let before = h.grows id in
            rw (grown, grow-current now id o seen)
              (elim (Bool-cases (o.user_id == id)) [
                | inl own ↦ rw own (omega (int_laws, before, positive))
                | inr other ↦ rw other (omega (int_laws, before))
              ]);
      }
