-- ===== src/Ledger/Keys.antt =====
-- The orders table between calls: no order number twice, and no points for an order that is still
-- open; and what the selection of the open orders returns.
use gomart.Prelude.{
  ◌≡◌, ◌≢◌, sym, subst, Bool, true, Bool-cases, inl, inr, some, List, [], ◌∷◌, map, ◌==◌, leb,
  arith, All,
}
use gomart.Prelude.Int.{pos}
use gomart.Tables.{is_open, has_open_status, has_order}
use gomart.Tables.Rows.{OrderRow, find, filter, put_order, insert_latest, latest_first}
use gomart.Tables.Each.{All-insert_latest, All-latest_first, All-filter, All-put_order}
use gomart.PgStore.{scanned_order}
use gomart.Ledger.Credits.{AreDistinct}

abbrev pub Differs : OrderRow → OrderRow → Type 0
Differs r x = x.order_id ≢ r.order_id

abbrev pub IsKeyed : List OrderRow → Type 0
IsKeyed [] = Unit
IsKeyed (r ∷ rs) = All (Differs r) rs × IsKeyed rs

abbrev pub Unpaid : OrderRow → Type 0
Unpaid r = is_open r.status ≡ true → r.accrual ≡ pos 0

IsKeyed-insert_latest :
    (row : OrderRow) (rs : List OrderRow)
    → All (Differs row) rs
    → IsKeyed rs
    → IsKeyed (insert_latest row rs)
IsKeyed-insert_latest row [] h k = (tt, tt)
IsKeyed-insert_latest row (r ∷ rs) h k = elim (Bool-cases (leb r.uploaded_at row.uploaded_at)) [
  | inl e ↦ rw e (h, k)
  | inr e ↦ rw e (
    All-insert_latest (Differs r) row rs (λ q. h.0 (sym q)) k.0,
    IsKeyed-insert_latest row rs h.1 k.1,
  )
]

pub IsKeyed-latest_first : (rs : List OrderRow) → IsKeyed rs → IsKeyed (latest_first rs)
IsKeyed-latest_first [] k = tt
IsKeyed-latest_first (r ∷ rs) k =
    IsKeyed-insert_latest r (latest_first rs) (All-latest_first (Differs r) rs k.0)
      (IsKeyed-latest_first rs k.1)

pub IsKeyed-filter : (p : OrderRow → Bool) (rs : List OrderRow) → IsKeyed rs → IsKeyed (filter p rs)
IsKeyed-filter p [] k = tt
IsKeyed-filter p (r ∷ rs) k = elim (Bool-cases (p r)) [
  | inl e ↦ rw e (All-filter (Differs r) p rs k.0, IsKeyed-filter p rs k.1)
  | inr e ↦ rw e (IsKeyed-filter p rs k.1)
]

pub IsKeyed-put_order :
    (row : OrderRow) (rs : List OrderRow) → IsKeyed rs → IsKeyed (put_order row rs)
IsKeyed-put_order row [] k = (tt, tt)
IsKeyed-put_order row (r ∷ rs) k = elim (Bool-cases (r.order_id == row.order_id)) [
  | inl e ↦
      let same : r.order_id ≡ row.order_id = ground arith in
      rw e (subst (λ id. All (λ x. x.order_id ≢ id) rs) same k.0, k.1)
  | inr e ↦ rw e (
    All-put_order (Differs r) row rs (λ q. absurd (ground arith)) k.0,
    IsKeyed-put_order row rs k.1,
  )
]

-- What the selection returns for processing: an open order as it stands in the table.
pub record IsSelected (rows : List OrderRow) (r : OrderRow) : Type 0 where
  pub found : find (has_order r.order_id) rows ≡ some r
  pub open_ : is_open r.status ≡ true

AreFound :
    (rows : List OrderRow)
    → IsKeyed rows
    → All (λ r. find (has_order r.order_id) rows ≡ some r) rows
AreFound [] k = tt
AreFound (r ∷ rs) k = (ground arith, go rs k.0 (AreFound rs k.1))
  where
    go :
        (xs : List OrderRow)
        → All (Differs r) xs
        → All (λ x. find (has_order x.order_id) rs ≡ some x) xs
        → All (λ x. find (has_order x.order_id) (r ∷ rs) ≡ some x) xs
    go [] d f = tt
    go (x ∷ xs) d f = (ground (arith, d.0, f.0), go xs d.1 f.1)

AreOpen : (rows : List OrderRow) → All (λ r. has_open_status r ≡ true) (filter has_open_status rows)
AreOpen [] = tt
AreOpen (r ∷ rs) = elim (Bool-cases (has_open_status r)) [
  | inl e ↦ rw e (e, AreOpen rs)
  | inr e ↦ rw e (AreOpen rs)
]

All-zip :
    (rows xs : List OrderRow)
    → All (λ r. find (has_order r.order_id) rows ≡ some r) xs
    → All (λ r. has_open_status r ≡ true) xs
    → All (IsSelected rows) xs
All-zip rows [] f o = tt
All-zip rows (x ∷ xs) f o = (record { found = f.0; open_ = o.0 }, All-zip rows xs f.1 o.1)

-- Each row that the selection of the open orders returns stands in the table, and is open.
pub AreSelected :
    (rows : List OrderRow)
    → IsKeyed rows
    → All (IsSelected rows) (latest_first (filter has_open_status rows))
AreSelected rows k = All-latest_first (IsSelected rows) (filter has_open_status rows) (
    All-zip rows (filter has_open_status rows)
      (All-filter (λ r. find (has_order r.order_id) rows ≡ some r) has_open_status rows
        (AreFound rows k))
      (AreOpen rows))

pub AreDistinct-map : (rows : List OrderRow) → IsKeyed rows → AreDistinct (map scanned_order rows)
AreDistinct-map [] k = tt
AreDistinct-map (r ∷ rs) k = (go rs k.0, AreDistinct-map rs k.1)
  where
    go :
        (xs : List OrderRow)
        → All (Differs r) xs
        → All (λ p. p.order_id ≢ r.order_id) (map scanned_order xs)
    go [] d = tt
    go (x ∷ xs) d = (d.0, go xs d.1)
