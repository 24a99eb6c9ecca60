-- ===== src/Tables/Keys.antt =====
-- The tables as maps from their primary keys.
use gomart.Prelude.{ℕ, ◌≡◌, refl, Option, none, some, List, [], ◌∷◌, arith, ◌==◌, if◌then◌else◌}
use gomart.Tables.{has_order, of_user, decreased, increased}
use gomart.Prelude.Int.{ℤ}
use gomart.Tables.Rows.{OrderRow, BalanceRow, find, put_order, put_balance}

pub find-put_order :
    (id : ℕ) (row : OrderRow) (rows : List OrderRow)
    → find (has_order id) (put_order row rows)
      ≡ (if row.order_id == id then some row else find (has_order id) rows)
find-put_order id row [] = refl
find-put_order id row (r ∷ rs) = ground (arith, find-put_order id row rs)

pub find-put_balance :
    (id : ℕ) (row : BalanceRow) (rows : List BalanceRow)
    → find (of_user id) (put_balance row rows)
      ≡ (if row.user_id == id then some row else find (of_user id) rows)
find-put_balance id row [] = refl
find-put_balance id row (r ∷ rs) = ground (arith, find-put_balance id row rs)

-- A row that is found has the number that was asked for.
pub find-has_order :
    (id : ℕ) (rows : List OrderRow) (row : OrderRow)
    → find (has_order id) rows ≡ some row
    → row.order_id ≡ id
find-has_order id [] row e = ground arith
find-has_order id (r ∷ rs) row e = ground (arith, find-has_order id rs row)

pub find-of_user :
    (id : ℕ) (rows : List BalanceRow) (row : BalanceRow)
    → find (of_user id) rows ≡ some row
    → row.user_id ≡ id
find-of_user id [] row e = ground arith
find-of_user id (r ∷ rs) row e = ground (arith, find-of_user id rs row)

-- A balance is credited or debited under the number of its user.
pub decreased-user_id :
    (id : ℕ) (c w : ℤ) (now : ℕ) (old : Option BalanceRow) → (decreased id c w now old).user_id ≡ id
unfolding decreased
decreased-user_id id c w now none = refl
decreased-user_id id c w now (some r) = refl

pub increased-user_id :
    (id : ℕ) (c w : ℤ) (now : ℕ) (old : Option BalanceRow) → (increased id c w now old).user_id ≡ id
unfolding increased
increased-user_id id c w now none = refl
increased-user_id id c w now (some r) = refl
