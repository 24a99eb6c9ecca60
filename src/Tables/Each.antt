-- ===== src/Tables/Each.antt =====
-- Statements about each row of the orders table, under the operations on its list.
use gomart.Prelude.{
  ◌≡◌, subst, Bool, Bool-cases, inl, inr, some, List, [], ◌∷◌, ◌==◌, leb, arith, All,
}
use gomart.Tables.Rows.{OrderRow, find, filter, put_order, insert_latest, latest_first}

module _ (P : OrderRow → Type 0) where
  pub All-insert_latest :
      (row : OrderRow) (rs : List OrderRow) → P row → All P rs → All P (insert_latest row rs)
  All-insert_latest row [] p h = (p, tt)
  All-insert_latest row (r ∷ rs) p h = elim (Bool-cases (leb r.uploaded_at row.uploaded_at)) [
    | inl e ↦ rw e (p, h)
    | inr e ↦ rw e (h.0, All-insert_latest row rs p h.1)
  ]

  pub All-latest_first : (rs : List OrderRow) → All P rs → All P (latest_first rs)
  All-latest_first [] h = tt
  All-latest_first (r ∷ rs) h = All-insert_latest r (latest_first rs) h.0 (All-latest_first rs h.1)

  pub All-filter : (p : OrderRow → Bool) (rs : List OrderRow) → All P rs → All P (filter p rs)
  All-filter p [] h = tt
  All-filter p (r ∷ rs) h = elim (Bool-cases (p r)) [
    | inl e ↦ rw e (h.0, All-filter p rs h.1)
    | inr e ↦ rw e (All-filter p rs h.1)
  ]

  pub find-All :
      (p : OrderRow → Bool) (rs : List OrderRow) (row : OrderRow)
      → All P rs
      → find p rs ≡ some row
      → P row
  find-All p [] row h e = cc
  find-All p (r ∷ rs) row h e = elim (Bool-cases (p r)) [
    | inl yes_ ↦ subst P (let same : r ≡ row = ground arith in same) h.0
    | inr no_ ↦ find-All p rs row h.1 (ground arith)
  ]

  pub All-put_order :
      (row : OrderRow) (rs : List OrderRow) → P row → All P rs → All P (put_order row rs)
  All-put_order row [] p h = (p, tt)
  All-put_order row (r ∷ rs) p h = elim (Bool-cases (r.order_id == row.order_id)) [
    | inl e ↦ rw e (p, h.1)
    | inr e ↦ rw e (h.0, All-put_order row rs p h.1)
  ]
