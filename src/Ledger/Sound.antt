-- ===== src/Ledger/Sound.antt =====
-- The invariant of the tables that all the operations keep.
use gomart.Prelude.{ℕ, ◌≡◌, sym, subst, true, some, List, [], ◌∷◌, All}
use gomart.Prelude.Int.{pos}
use gomart.Store.{Order}
use gomart.Tables.{parse_status, is_open}
use gomart.Tables.Rows.{OrderStatus, OrderRow, Tables}
use gomart.Tables.Each.{All-put_order}
use gomart.Batch.Effect.{update_row, update_rows, accounted}
use gomart.Ledger.{IsBalanced}
use gomart.Ledger.Credits.{
  IsAnswer, AreDistinct, answered_row, update_row-IsAnswer, AreAnswers-update_row,
  accounted-IsBalanced,
}
use gomart.Ledger.Keys.{IsKeyed, Unpaid, IsKeyed-put_order}

pub record IsSound (t : Tables) : Type 0 where
  pub books : IsBalanced t
  pub keyed : IsKeyed t.orders
  pub unpaid : All Unpaid t.orders

-- An order that stays open brings no points.
abbrev pub NoAdvance : Order → Type 0
NoAdvance o =
    (s : OrderStatus) → parse_status o.status ≡ some s → is_open s ≡ true → o.accrual.cents ≡ pos 0

module _ (now : ℕ) where
  update_row-IsKeyed :
      (o : Order) (rows : List OrderRow)
      → IsAnswer rows o
      → IsKeyed rows
      → IsKeyed (update_row now o rows)
  update_row-IsKeyed o rows a k =
      subst IsKeyed (sym (update_row-IsAnswer now o rows a))
        (IsKeyed-put_order (answered_row now o rows a) rows k)

  update_row-Unpaid :
      (o : Order) (rows : List OrderRow)
      → IsAnswer rows o
      → NoAdvance o
      → All Unpaid rows
      → All Unpaid (update_row now o rows)
  update_row-Unpaid o rows a n u =
      subst (All Unpaid) (sym (update_row-IsAnswer now o rows a))
        (All-put_order Unpaid (answered_row now o rows a) rows (n a.status a.parsed) u)

  update_rows_sound :
      (os : List Order) (rows : List OrderRow)
      → AreDistinct os
      → All (IsAnswer rows) os
      → All NoAdvance os
      → IsKeyed rows
      → All Unpaid rows
      → IsKeyed (update_rows now os rows) × All Unpaid (update_rows now os rows)
  unfolding update_rows
  update_rows_sound [] rows d a n k u = (k, u)
  update_rows_sound (o ∷ os) rows d a n k u =
      update_rows_sound os (update_row now o rows) d.1
        (AreAnswers-update_row now o os rows a.0 d.0 a.1) n.1 (update_row-IsKeyed o rows a.0 k)
        (update_row-Unpaid o rows a.0 n.0 u)

pub accounted-IsSound :
    (os : List Order) (t : Tables)
    → AreDistinct os
    → All (IsAnswer t.orders) os
    → All NoAdvance os
    → IsSound t
    → IsSound (accounted os t)
accounted-IsSound os t d a n h =
    let (k, u) = update_rows_sound t.now os t.orders d a n h.keyed h.unpaid in
    record { books = accounted-IsBalanced os t d a h.books; keyed = k; unpaid = u }
