-- ===== src/Tables/Rows.antt =====
-- The rows of the four tables (internal/gophermart/app/migrations/*.sql), and the search for rows.
use gomart.Prelude.{ℕ, Bool, Option, none, some, List, [], ◌∷◌, Bytes, leb, ◌==◌, if◌then◌else◌}
use gomart.Prelude.Int.{ℤ}

-- `order_status_type`
pub data OrderStatus : Type 0 where
  new processing registered invalid processed : OrderStatus

pub record UserRow : Type 0 where
  pub name : Bytes
  pub password : Bytes
  pub user_id : ℕ

pub record OrderRow : Type 0 where
  pub order_id : ℕ
  pub user_id : ℕ
  pub status : OrderStatus
  pub accrual : ℤ
  pub uploaded_at : ℕ
  pub changed_at : ℕ

pub record BalanceRow : Type 0 where
  pub user_id : ℕ
  pub current : ℤ
  pub withdrawn : ℤ
  pub changed_at : ℕ

pub record WithdrawalRow : Type 0 where
  pub user_id : ℕ
  pub order_id : ℕ
  pub sum : ℤ
  pub processed_at : ℕ

-- `next_user` is the sequence of the user numbers, and `now` the server's clock.
pub record Tables : Type 0 where
  pub users : List UserRow
  pub orders : List OrderRow
  pub balances : List BalanceRow
  pub withdrawals : List WithdrawalRow
  pub next_user : ℕ
  pub now : ℕ

module _ {A : Type 0} (p : A → Bool) where
  abbrev pub find : List A → Option A
  find [] = none
  find (x ∷ xs) = if p x then some x else find xs

  abbrev pub filter : List A → List A
  filter [] = []
  filter (x ∷ xs) = let rest = filter xs in if p x then x ∷ rest else rest

-- The row takes the place of the one with its primary key.
abbrev pub put_order : OrderRow → List OrderRow → List OrderRow
put_order row [] = row ∷ []
put_order row (r ∷ rs) = if r.order_id == row.order_id then row ∷ rs else r ∷ put_order row rs

abbrev pub put_balance : BalanceRow → List BalanceRow → List BalanceRow
put_balance row [] = row ∷ []
put_balance row (r ∷ rs) = if r.user_id == row.user_id then row ∷ rs else r ∷ put_balance row rs

-- `ORDER BY uploaded_at DESC`
abbrev pub insert_latest : OrderRow → List OrderRow → List OrderRow
insert_latest row [] = row ∷ []
insert_latest row (r ∷ rs) =
    if leb r.uploaded_at row.uploaded_at then row ∷ r ∷ rs else r ∷ insert_latest row rs

abbrev pub latest_first : List OrderRow → List OrderRow
latest_first [] = []
latest_first (r ∷ rs) = insert_latest r (latest_first rs)
