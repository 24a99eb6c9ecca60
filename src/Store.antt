-- ===== src/Store.antt =====
-- The values that the parts of the program exchange: internal/common/store/store.go.
use gomart.Prelude.{ℕ, String, Bool, ◌||◌, ◌&&◌, true, false, Bytes, ◌+◌, ◌==◌}
use gomart.Prelude.Int.{ℤ, pos, pos_part, neg_part, ltb_ℤ}

-- Where an amount lies against its rounding to hundredths.
pub data Rest : Type 0 where
  below exact above : Rest

-- A `decimal.Decimal` enters the program by a comparison with a value that was read from a
-- decimal(19,2) column, and by being stored in such a column. Both depend on two facts about it:
-- its rounding to hundredths, and whether it is that rounding or lies below or above it.
pub record Decimal : Type 0 where
  pub cents : ℤ
  pub rest : Rest

abbrev pub of_cents : ℤ → Decimal
of_cents c = record { cents = c; rest = exact }

abbrev pub zero_decimal : Decimal
zero_decimal = of_cents (pos 0)

abbrev is_above : Rest → Bool
is_above above = true
is_above _ = false

-- `a.Compare(d) < 0` for `a` read from a column.
unfoldable pub is_less : ℤ → Decimal → Bool
is_less a d =
    ltb_ℤ a d.cents
    || (pos_part a + neg_part d.cents == pos_part d.cents + neg_part a) && is_above d.rest

pub record User : Type 0 where
  pub name : Bytes
  pub password : Bytes
  pub id : ℕ

pub record Order : Type 0 where
  pub order_id : ℕ
  pub user_id : ℕ
  pub status : String
  pub accrual : Decimal
  pub time_u : ℕ
  pub time_c : ℕ

-- Its amounts come from the columns of one row.
pub record Balance : Type 0 where
  pub user_id : ℕ
  pub accrual : ℤ
  pub withdrawn : ℤ
  pub time_c : ℕ

pub record Withdraw : Type 0 where
  pub user_id : ℕ
  pub order_id : ℕ
  pub sum : Decimal
  pub time_c : ℕ
