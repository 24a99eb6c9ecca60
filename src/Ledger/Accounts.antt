-- ===== src/Ledger/Accounts.antt =====
-- The points of the users without tables, requests and errors: what the server promises of them.
use gomart.Prelude.{ℕ, ◌==◌, if◌then◌else◌}
use gomart.Prelude.Int.{ℤ, pos, ◌+ℤ◌, ◌-ℤ◌, ◌≤ℤ◌}
use gomart.Tables.Rows.{Tables}
use gomart.PgStore.Withdrawal.{current_of, withdrawn_of}

-- What a user has, and has spent.
pub record Account : Type 0 where
  pub current : ℤ
  pub withdrawn : ℤ

abbrev pub Accounts : Type 0
Accounts = ℕ → Account

-- One user spends a sum that is not negative and no more than the user has, or users get points.
pub data Move (a : Accounts) : Accounts → Type 0 where
  spend :
      (id : ℕ) (sum : ℤ)
      → pos 0 ≤ℤ sum
      → sum ≤ℤ (a id).current
      → Move a (λ k.
        if id == k
        then record { current = (a id).current -ℤ sum; withdrawn = (a id).withdrawn +ℤ sum }
        else a k)
  earn :
      (points : ℕ → ℤ)
      → ((k : ℕ) → pos 0 ≤ℤ points k)
      → Move a (λ k. record { current = (a k).current +ℤ points k; withdrawn = (a k).withdrawn })

-- Any number of moves.
pub data Moves (a : Accounts) : Accounts → Type 0 where
  unmoved : Moves a a
  moved : {b c : Accounts} → Moves a b → Move b c → Moves a c

-- The accounts that the tables stand for.
abbrev pub accounts : Tables → Accounts
accounts t k = record { current = current_of k t.balances; withdrawn = withdrawn_of k t.balances }
