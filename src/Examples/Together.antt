-- ===== src/Examples/Together.antt =====
-- Two withdrawals of one user that run at the same time, and one that runs alone.
use gomart.Prelude.{ℕ, ◌≡◌, refl, none, some, [], codes, arith, All}
use gomart.Prelude.Int.{pos, ◌-ℤ◌, ◌+ℤ◌}
use gomart.Store.{Withdraw, of_cents, is_less}
use gomart.Tables.{select_balance, balance_dec, store_balance, decreased, insert_withdrawal}
use gomart.Tables.Rows.{BalanceRow, WithdrawalRow}
use gomart.Ledger.Keys.{IsKeyed, Unpaid}
use gomart.Ledger.Sound.{IsSound}
use gomart.Handlers.Pages.{Codec}
use gomart.Concurrent.{
  Session, idle, reading, debiting, recording, ending, view, put_balances, Db, update_at,
  locked_user, Reach, here, next, begin, read, debit, record_withdrawal, commit, quiet,
}
use gomart.Concurrent.Invariant.{IsAccounted}
use gomart.Concurrent.Books.{Reach-IsAccounted}
use gomart.Concurrent.Funds.{Alone}
use gomart.Concurrent.Alone.{Reach-IsSound-Alone}
use gomart.Ledger.Accounts.{Moves, accounts}
use gomart.Concurrent.Accounts.{Reach-Moves}
use gomart.Examples.{hmac, tables}
use gomart.Examples.Http
use gomart.Examples.Round.{decode, decode-IsHonest, tables-IsSound}

-- Every body asks for 300 points.
abbrev codec : Codec
codec = record Http.codec {
  decode_withdraw =
      λ body. some (record { order_id = body; sum = of_cents (pos 30000); time_c = 0 });
}

abbrev asked : ℕ → Withdraw
asked number = record { user_id = 1; order_id = number; sum = of_cents (pos 30000); time_c = 0 }

abbrev one : Withdraw
one = asked 79927398713

abbrev two : Withdraw
two = asked 2377225624

abbrev drawn : Withdraw → WithdrawalRow
drawn w = record { user_id = 1; order_id = w.order_id; sum = pos 30000; processed_at = 9 }

abbrev set : ℕ → Session → Db → Db
set i s db = record db { sessions = update_at i s db.sessions }

abbrev settled : ℕ → Db → Db
settled i db = record db {
  tables = view (db.sessions i) db.tables;
  sessions = update_at i idle db.sessions;
}

-- Both have read the 500 points.
abbrev both_read : Db
both_read =
    set 1 (debiting two)
      (set 0 (debiting one) (set 1 (reading two) (set 0 (reading one) (quiet tables))))

abbrev first_row : BalanceRow
first_row = record { user_id = 1; current = pos 20000; withdrawn = pos 30000; changed_at = 9 }

abbrev first_settled : Db
first_settled =
    settled 0 (set 0 (ending one first_row (drawn one)) (set 0 (recording one first_row) both_read))

-- The second leaves less than nothing.
abbrev second_row : BalanceRow
second_row = record {
  user_id = 1;
  current = pos 20000 -ℤ pos 30000;
  withdrawn = pos 60000;
  changed_at = 9;
}

abbrev overdrawn : Db
overdrawn =
    settled 1
      (set 1 (ending two second_row (drawn two)) (set 1 (recording two second_row) first_settled))

none_locks : (j : ℕ) → locked_user (both_read.sessions j) ≡ none
none_locks j = ground arith

none_locks_later : (j : ℕ) → locked_user (first_settled.sessions j) ≡ none
none_locks_later j = ground arith

both_begun : Reach codec hmac [] decode (λ db w. Unit {0}) (quiet tables) both_read
unfolding is_less select_balance put_balances
both_begun =
    next
      (next
        (next (next here (begin 0 (codes "1") _ one refl refl refl tt))
          (begin 1 (codes "2") _ two refl refl refl tt))
        (read 0 one refl refl))
      (read 1 two refl refl)

first_settles : Reach codec hmac [] decode (λ db w. Unit {0}) (quiet tables) first_settled
unfolding balance_dec store_balance decreased insert_withdrawal put_balances ◌+ℤ◌ ◌-ℤ◌
first_settles =
    next
      (next
        (next both_begun
          (debit 0 9 one first_row refl (λ j ne k. (let free = none_locks j in cc)) refl refl))
        (record_withdrawal 0 9 one first_row (drawn one) refl (λ j ne. ground arith) refl))
      (commit 0 one first_row (drawn one) refl)

second_settles : Reach codec hmac [] decode (λ db w. Unit {0}) (quiet tables) overdrawn
unfolding balance_dec store_balance decreased insert_withdrawal put_balances ◌+ℤ◌ ◌-ℤ◌
second_settles =
    next
      (next
        (next first_settles (
          debit 1 9 two second_row refl (λ j ne k. (let free = none_locks_later j in cc)) refl
            refl))
        (record_withdrawal 1 9 two second_row (drawn two) refl (λ j ne. ground arith) refl))
      (commit 1 two second_row (drawn two) refl)

Reach-IsAccounted_example :
    IsAccounted overdrawn.tables
    × IsKeyed overdrawn.tables.orders
    × All Unpaid overdrawn.tables.orders
Reach-IsAccounted_example =
    Reach-IsAccounted codec hmac [] decode (λ db w. Unit {0}) (λ body x e. ground arith)
      decode-IsHonest tables overdrawn
      (record { spent = tables-IsSound.books.spent; earned = tables-IsSound.books.earned })
      tables-IsSound.keyed tables-IsSound.unpaid second_settles

-- The first withdrawal only.
abbrev debiting_alone : Db
debiting_alone = set 0 (debiting one) (set 0 (reading one) (quiet tables))

abbrev settled_alone : Db
settled_alone =
    settled 0
      (set 0 (ending one first_row (drawn one)) (set 0 (recording one first_row) debiting_alone))

one_settles : Reach codec hmac [] decode Alone (quiet tables) settled_alone
unfolding is_less select_balance balance_dec store_balance decreased insert_withdrawal put_balances
    ◌+ℤ◌ ◌-ℤ◌
one_settles =
    next
      (next
        (next
          (next (next here (begin 0 (codes "1") _ one refl refl refl (λ j k. cc)))
            (read 0 one refl refl))
          (debit 0 9 one first_row refl (λ j ne. ground arith) refl refl))
        (record_withdrawal 0 9 one first_row (drawn one) refl (λ j ne. ground arith) refl))
      (commit 0 one first_row (drawn one) refl)

Reach-IsSound-Alone_example : IsSound settled_alone.tables
Reach-IsSound-Alone_example =
    Reach-IsSound-Alone codec hmac [] decode (λ body x e. ground arith) decode-IsHonest tables
      settled_alone tables-IsSound one_settles

Reach-Moves_example : Moves (accounts tables) (accounts settled_alone.tables)
Reach-Moves_example =
    Reach-Moves codec hmac [] decode (λ body x e. ground arith) decode-IsHonest tables settled_alone
      tables-IsSound one_settles
