-- ===== src/Concurrent/Versions.antt =====
-- The rows that a transaction has written, over what is committed.
use gomart.Prelude.{
  ℕ, ◌≡◌, ◌≢◌, refl, sym, ap, ◌∙◌, Bool-cases, inl, inr, Option, none, some, List, [], ◌∷◌, ◌++◌,
  map, ◌==◌, if◌then◌else◌, arith, All,
}
use gomart.Prelude.Int.{pos, pos_part, neg_part, ◌+ℤ◌, int_laws}
use gomart.Tables.{has_order, of_user}
use gomart.Tables.Keys.{find-put_order, find-put_balance}
use gomart.Tables.Each.{All-put_order}
use gomart.Tables.Rows.{OrderRow, BalanceRow, find, put_order, put_balance}
use gomart.Ledger.{total_accrual}
use gomart.Ledger.Sums.{total_accrual-put_order}
use gomart.Ledger.Keys.{Unpaid, IsKeyed, IsKeyed-put_order}
use gomart.Concurrent.{put_balances, put_orders}

-- The last row of the user that is written, or the old one.
latest : ℕ → List BalanceRow → Option BalanceRow → Option BalanceRow
latest id [] old = old
latest id (r ∷ rs) old = latest id rs (if r.user_id == id then some r else old)

find-put_balances :
    (id : ℕ) (bs rows : List BalanceRow)
    → find (of_user id) (put_balances bs rows) ≡ latest id bs (find (of_user id) rows)
unfolding put_balances latest
find-put_balances id [] rows = refl
find-put_balances id (b ∷ bs) rows =
    find-put_balances id bs (put_balance b rows) ∙ ap (latest id bs) (find-put_balance id b rows)

latest-free :
    (id : ℕ) (bs : List BalanceRow) (old : Option BalanceRow)
    → find (of_user id) bs ≡ none
    → latest id bs old ≡ old
unfolding latest
latest-free id [] old free = refl
latest-free id (b ∷ bs) old free = elim (Bool-cases (b.user_id == id)) [
  | inl own ↦ absurd (ground (arith, own, free))
  | inr other ↦ rw other (latest-free id bs old (ground (arith, other, free)))
]

-- A user whose balance is not among those that are written.
pub find-put_balances_free :
    (id : ℕ) (bs rows : List BalanceRow)
    → find (of_user id) bs ≡ none
    → find (of_user id) (put_balances bs rows) ≡ find (of_user id) rows
find-put_balances_free id bs rows free =
    find-put_balances id bs rows ∙ latest-free id bs (find (of_user id) rows) free

-- Another transaction commits a row of another user.
pub find-put_balances_over :
    (id : ℕ) (bs : List BalanceRow) (row : BalanceRow) (rows : List BalanceRow)
    → find (of_user row.user_id) bs ≡ none
    → find (of_user id) (put_balances bs (put_balance row rows))
      ≡ (if row.user_id == id then some row else find (of_user id) (put_balances bs rows))
find-put_balances_over id bs row rows free = elim (Bool-cases (row.user_id == id)) [
  | inl own ↦
      let same : row.user_id ≡ id = ground arith in
      let free' : find (of_user id) bs ≡ none = rw (← same) free in
      rw own (
        find-put_balances_free id bs (put_balance row rows) free'
        ∙ find-put_balance id row rows
        ∙ rw own refl)
  | inr other ↦ rw other (
      find-put_balances id bs (put_balance row rows)
      ∙ ap (latest id bs) (find-put_balance id row rows ∙ rw other refl)
      ∙ sym (find-put_balances id bs rows))
]

pub put_balances-snoc :
    (bs : List BalanceRow) (row : BalanceRow) (rows : List BalanceRow)
    → put_balances (bs ++ row ∷ []) rows ≡ put_balance row (put_balances bs rows)
unfolding put_balances
put_balances-snoc [] row rows = refl
put_balances-snoc (b ∷ bs) row rows = put_balances-snoc bs row (put_balance b rows)

-- No number stands twice.
abbrev pub AreApart : List ℕ → Type 0
AreApart [] = Unit
AreApart (k ∷ ks) = All (λ j. j ≢ k) ks × AreApart ks

-- A row that takes the place of one of the same user without points; if it is open, it has none either.
pub record Replaces (rows : List OrderRow) (row : OrderRow) : Type 0 where
  pub old : OrderRow
  pub found : find (has_order row.order_id) rows ≡ some old
  pub owner : old.user_id ≡ row.user_id
  pub was_unpaid : old.accrual ≡ pos 0
  pub unpaid : Unpaid row

Replaces-put_order :
    (rows : List OrderRow) (r q : OrderRow)
    → q.order_id ≢ r.order_id
    → Replaces rows q
    → Replaces (put_order r rows) q
Replaces-put_order rows r q ne h = record {
  old = h.old;
  found = find-put_order q.order_id r rows ∙ ground (arith, h.found);
  owner = h.owner;
  was_unpaid = h.was_unpaid;
  unpaid = h.unpaid;
}

AreReplaces-put_order :
    (rows qs : List OrderRow) (r : OrderRow)
    → All (λ j. j ≢ r.order_id) (map (λ row. row.order_id) qs)
    → All (Replaces rows) qs
    → All (Replaces (put_order r rows)) qs
AreReplaces-put_order rows [] r ne h = tt
AreReplaces-put_order rows (q ∷ qs) r ne h =
    (Replaces-put_order rows r q ne.0 h.0, AreReplaces-put_order rows qs r ne.1 h.1)

pub find-put_orders :
    (id : ℕ) (rs rows : List OrderRow)
    → All (λ j. j ≢ id) (map (λ row. row.order_id) rs)
    → find (has_order id) (put_orders rs rows) ≡ find (has_order id) rows
unfolding put_orders
find-put_orders id [] rows ne = refl
find-put_orders id (r ∷ rs) rows ne =
    find-put_orders id rs (put_order r rows) ne.1 ∙ find-put_order id r rows ∙ ground (arith, ne.0)

Replaces-accrual :
    (id : ℕ) (rows : List OrderRow) (r : OrderRow)
    → Replaces rows r
    → total_accrual id (put_order r rows)
      ≡ total_accrual id rows +ℤ (if r.user_id == id then r.accrual else pos 0)
Replaces-accrual id rows r h =
    let moved = total_accrual-put_order id r h.old rows h.found (sym h.owner) in
    let moved' = rw (h.owner, h.was_unpaid) at moved in
    elim (Bool-cases (r.user_id == id)) [
      | inl own ↦
          let m = rw own at moved' in rw own (omega (int_laws, ap pos_part m, ap neg_part m))
      | inr other ↦
          let m = rw other at moved' in rw other (omega (int_laws, ap pos_part m, ap neg_part m))
    ]

-- Rows with different numbers bring their points, and keep the numbers different and the open orders
-- without points.
pub put_orders-accrual :
    (id : ℕ) (rs rows : List OrderRow)
    → AreApart (map (λ row. row.order_id) rs)
    → All (Replaces rows) rs
    → total_accrual id (put_orders rs rows) ≡ total_accrual id rows +ℤ total_accrual id rs
unfolding put_orders total_accrual
put_orders-accrual id [] rows ne h = omega int_laws
put_orders-accrual id (r ∷ rs) rows ne h =
    let rest =
      put_orders-accrual id rs (put_order r rows) ne.1 (AreReplaces-put_order rows rs r ne.0 h.1) in
    rw (rest, Replaces-accrual id rows r h.0) (omega int_laws)

pub put_orders-IsKeyed : (rs rows : List OrderRow) → IsKeyed rows → IsKeyed (put_orders rs rows)
unfolding put_orders
put_orders-IsKeyed [] rows k = k
put_orders-IsKeyed (r ∷ rs) rows k =
    put_orders-IsKeyed rs (put_order r rows) (IsKeyed-put_order r rows k)

pub put_orders-Unpaid :
    (rs rows : List OrderRow) → All Unpaid rs → All Unpaid rows → All Unpaid (put_orders rs rows)
unfolding put_orders
put_orders-Unpaid [] rows u h = h
put_orders-Unpaid (r ∷ rs) rows u h =
    put_orders-Unpaid rs (put_order r rows) u.1 (All-put_order Unpaid r rows u.0 h)
