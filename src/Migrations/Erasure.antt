-- ===== src/Migrations/Erasure.antt =====
-- What `migrate` leaves of a database that it has set up before.
use mathlib.Core.List.{reverse}
use gomart.Prelude.{ℕ, ◌≡◌, refl, ap, ◌∙◌, true, false, none, some, List, [], take, drop, ok}
use gomart.Tables.Rows.{UserRow, OrderRow, BalanceRow, WithdrawalRow}
use gomart.Migrations.{
  Database, Goose, embed_migrations, migrate, all_up, all_down, create_users, drop_users,
  create_orders, drop_orders, create_balances, drop_balances, create_withdrawals, drop_withdrawals,
  then_do,
}

-- A database as `migrate` leaves it, whatever rows it has by now.
abbrev pub set_up :
    ℕ → List UserRow → List OrderRow → List BalanceRow → List WithdrawalRow → Database
set_up next_user users orders balances withdrawals = record {
  users = some users;
  next_user = next_user;
  status_type = true;
  orders = some orders;
  balances = some balances;
  withdrawals = some withdrawals;
  version = 4;
}

abbrev pub emptied : ℕ → Database
emptied next_user = record {
  users = none;
  next_user = next_user;
  status_type = false;
  orders = none;
  balances = none;
  withdrawals = none;
  version = 0;
}

all_down-set_up :
    (n : ℕ) (us : List UserRow) (os : List OrderRow) (bs : List BalanceRow)
    (ws : List WithdrawalRow)
    → all_down (reverse (take 4 embed_migrations)) (set_up n us os bs ws) ≡ ok (emptied n)
unfolding all_down embed_migrations drop_users drop_orders drop_balances drop_withdrawals
all_down-set_up n us os bs ws = refl

all_up-emptied : (n : ℕ) → all_up (drop 0 embed_migrations) (emptied n) ≡ ok (set_up 1 [] [] [] [])
unfolding all_up embed_migrations create_users create_orders create_balances create_withdrawals
all_up-emptied n = refl

-- Each start of the server takes all migrations back before it applies them: a database that an
-- earlier start has set up, and one that has no tables yet, come out with the four tables empty and
-- the user numbers starting at 1, whatever rows there were.
pub migrate-set_up :
    (goose : Goose) (n : ℕ) (us : List UserRow) (os : List OrderRow) (bs : List BalanceRow)
    (ws : List WithdrawalRow)
    → (migrate goose (set_up n us os bs ws) ≡ ok (set_up 1 [] [] [] []))
      × (migrate goose (emptied n) ≡ ok (set_up 1 [] [] [] []))
unfolding migrate all_down
migrate-set_up goose n us os bs ws = (
  ap (λ r. then_do r (goose.up embed_migrations))
        (goose.down_to_zero_lem embed_migrations (set_up n us os bs ws)
          ∙ all_down-set_up n us os bs ws)
      ∙ goose.up_lem embed_migrations (emptied n)
      ∙ all_up-emptied n,
  ap (λ r. then_do r (goose.up embed_migrations))
        (goose.down_to_zero_lem embed_migrations (emptied n))
      ∙ goose.up_lem embed_migrations (emptied n)
      ∙ all_up-emptied n,
)
