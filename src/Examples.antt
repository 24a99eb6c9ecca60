-- ===== src/Examples.antt =====
-- Sample data for the runs in the modules below: two users, the orders of the first, and the
-- libraries as small concrete functions.
mod Money
mod Http
mod Round
mod Workers
mod Compressed
mod Sessions
mod Server
mod Together
mod Startup
mod Settings
mod Users
mod Starts
mod Signed
mod Standin
mod Orders
use gomart.Prelude.{
  ℕ, zero, suc, ◌+◌, ◌≡◌, refl, Bool, true, List, [], ◌∷◌, Bytes, codes, All, length, arith, Option,
  none, some,
}
use gomart.Prelude.Int.{ℤ, pos}
use gomart.Password.{Hmac, AreBytes}
use gomart.Store.{of_cents}
use gomart.Tables.Rows.{OrderRow, BalanceRow, new, processed, Tables}
use gomart.Conn.{World}

abbrev pub zeros : ℕ → Bytes
zeros zero = []
zeros (suc n) = 0 ∷ zeros n

pub length-zeros : (n : ℕ) → length (zeros n) ≡ n
length-zeros zero = refl
length-zeros (suc n) = omega (arith, length-zeros n)

pub zeros-AreBytes : (n : ℕ) → AreBytes (zeros n)
zeros-AreBytes zero = tt
zeros-AreBytes (suc n) = (omega arith, zeros-AreBytes n)

-- A code of 32 bytes.
abbrev pub hmac : Hmac
hmac = record {
  code = λ key message. zeros 32;
  length-code = λ key message. length-zeros 32;
  code-AreBytes = λ key message. zeros-AreBytes 32;
}

-- The first user has 500 points for an order, and has uploaded another.
abbrev pub tables : Tables
tables = record {
  users = [];
  orders =
      record {
        order_id = 2377225624;
        user_id = 1;
        status = processed;
        accrual = pos 50000;
        uploaded_at = 3;
        changed_at = 4;
      }
      ∷ record {
        order_id = 12345678903;
        user_id = 1;
        status = new;
        accrual = pos 0;
        uploaded_at = 5;
        changed_at = 5;
      }
      ∷ [];
  balances = record { user_id = 1; current = pos 50000; withdrawn = pos 0; changed_at = 4 } ∷ [];
  withdrawals = [];
  next_user = 3;
  now = 9;
}

abbrev pub world : World
world = record { tables = tables; net = [] }
