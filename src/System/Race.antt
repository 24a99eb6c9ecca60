-- ===== src/System/Race.antt =====
-- Two calls of `InsertWithdraw`, internal/common/store/pg/pg.go, that overlap. The statement that reads
-- the balance does not lock the row, and a transaction of PostgreSQL's default level sees in each
-- statement what others have committed before it.
use gomart.Prelude.{
  ℕ, ◌≡◌, refl, ap, ◌∙◌, true, false, none, some, ok, arith, List, [], ◌∷◌, ◌++◌, ◌==◌,
}
use gomart.Prelude.Int.{◌-ℤ◌, ◌+ℤ◌}
use gomart.Store.{Decimal, is_less, Withdraw}
use gomart.Tables.{
  of_user, decreased, fits_bigint, fits_numeric, has_withdrawal, select_balance, balance_dec,
  store_balance, insert_withdrawal,
}
use gomart.Tables.Keys.{find-put_balance}
use gomart.Tables.Rows.{BalanceRow, WithdrawalRow, Tables, find}
use gomart.Conn.{World, Call, round_trip, tx_query, InTx, ◌>>=◌, and_then, begun, finish, commit}
use gomart.PgStore.{read_balance, check_balance, debit, record_withdrawal, exec, insert_withdraw}
use gomart.PgStore.Withdrawal.{current_of, debited, new_row, insert_withdraw-served}
use gomart.Ledger.Sums.{current_of-put_balance}

-- Another transaction commits.
abbrev pub interrupted : (Tables → Tables) → InTx (Unit {0})
interrupted other tx = (ok tt, record tx { view = other tx.view })

-- The body of `InsertWithdraw`, where another transaction commits after the balance is read.
unfoldable pub overtaken_body : (Tables → Tables) → Withdraw → InTx (Unit {0})
overtaken_body other w =
    read_balance w.user_id >>= λ o. interrupted other >>= λ _. check_balance o w >>= λ _. debit w

unfoldable pub overtaken_withdraw : (Tables → Tables) → Withdraw → Call (Unit {0})
overtaken_withdraw other w world = and_then (round_trip world) λ w₁.
    and_then (round_trip w₁) λ w₂. finish (other w₂.tables) (overtaken_body other w (begun w₂))

-- With no fault on the way, if after the other transaction has committed the order number is new, and the
-- values fit their columns, the sum is debited wherever the balance that was read before covers it.
overtaken_withdraw-served :
    (other : Tables → Tables) (w : Withdraw) (t : Tables) (row row' : BalanceRow)
    → fits_bigint w.user_id ≡ true
    → fits_bigint w.order_id ≡ true
    → fits_numeric w.sum.cents ≡ true
    → find (of_user w.user_id) t.balances ≡ some row
    → is_less row.current w.sum ≡ false
    → find (of_user w.user_id) (other t).balances ≡ some row'
    → fits_numeric (row'.current -ℤ w.sum.cents) ≡ true
    → fits_numeric (row'.withdrawn +ℤ w.sum.cents) ≡ true
    → find (has_withdrawal w.order_id) (other t).withdrawals ≡ none
    → overtaken_withdraw other w (record { tables = t; net = [] })
      ≡ (ok tt, record { tables = debited w (other t); net = [] })
unfolding overtaken_withdraw overtaken_body round_trip finish commit read_balance check_balance
    debit record_withdrawal exec tx_query select_balance balance_dec store_balance insert_withdrawal
    decreased
overtaken_withdraw-served other w t row row' fu fo fs found covered found' fc fw fresh =
    ground arith

find-snoc_none :
    (id : ℕ) (rows : List WithdrawalRow) (row : WithdrawalRow)
    → find (has_withdrawal id) rows ≡ none
    → (row.order_id == id) ≡ false
    → find (has_withdrawal id) (rows ++ row ∷ []) ≡ none
find-snoc_none id [] row e ne = ground arith
find-snoc_none id (r ∷ rows) row e ne = ground (arith, find-snoc_none id rows row)

module _ (user_id order_a order_b : ℕ) (a b : Decimal) where
  abbrev pub one : Withdraw
  one = record { user_id = user_id; order_id = order_a; sum = a; time_c = 0 }

  abbrev pub two : Withdraw
  two = record { user_id = user_id; order_id = order_b; sum = b; time_c = 0 }

  abbrev pub other : Tables → Tables
  other t = (insert_withdraw one (record { tables = t; net = [] })).1.tables

  -- With no fault on the way, and for different new order numbers and values that fit their columns
  -- throughout: if a user's balance covers two sums one by one, and the first withdrawal commits after
  -- the second has read the balance, both are served, and the balance loses both sums, though it need
  -- not cover them together.
  pub overtaken_withdraw-insert_withdraw :
      (t : Tables) (row : BalanceRow)
      → fits_bigint user_id ≡ true
      → fits_bigint order_a ≡ true
      → fits_bigint order_b ≡ true
      → fits_numeric a.cents ≡ true
      → fits_numeric b.cents ≡ true
      → find (of_user user_id) t.balances ≡ some row
      → is_less row.current a ≡ false
      → is_less row.current b ≡ false
      → (fits_numeric (row.current -ℤ a.cents) ≡ true)
        × (fits_numeric (row.withdrawn +ℤ a.cents) ≡ true)
      → (fits_numeric ((row.current -ℤ a.cents) -ℤ b.cents) ≡ true)
        × (fits_numeric ((row.withdrawn +ℤ a.cents) +ℤ b.cents) ≡ true)
      → find (has_withdrawal order_a) t.withdrawals ≡ none
      → find (has_withdrawal order_b) t.withdrawals ≡ none
      → (order_a == order_b) ≡ false
      → ((insert_withdraw one (record { tables = t; net = [] })).0 ≡ ok tt)
        × ((overtaken_withdraw other two (record { tables = t; net = [] })).0 ≡ ok tt)
        × (current_of user_id
              (overtaken_withdraw other two (record { tables = t; net = [] })).1.tables.balances
            ≡ (row.current -ℤ a.cents) -ℤ b.cents)
  unfolding decreased
  overtaken_withdraw-insert_withdraw t row fu foa fob fa fb found ca cb once twice fresh_a fresh_b
        ne =
      let w : World = record { tables = t; net = [] } in
      let row_a = decreased user_id a.cents a.cents t.now (some row) in
      let left : insert_withdraw one w ≡ (ok tt, record { tables = debited one t; net = [] }) =
        rw (insert_withdraw-served one t fu foa fa (rw found once) fresh_a, found, ca) refl in
      let same : other t ≡ debited one t = ap (λ p. p.1.tables) left in
      let stored : find (of_user user_id) (other t).balances ≡ some row_a =
        rw (same, found, find-put_balance user_id row_a t.balances) (ground arith) in
      let right : overtaken_withdraw other two w
          ≡ (ok tt, record { tables = debited two (other t); net = [] }) =
        overtaken_withdraw-served other two t row row_a fu fob fb found cb stored twice.0 twice.1
          (rw same (find-snoc_none order_b t.withdrawals (new_row one t) fresh_b ne)) in
      (
        ap (λ p. p.0) left,
        ap (λ p. p.0) right,
        ap (λ p. current_of user_id p.1.tables.balances) right
            ∙ current_of-put_balance user_id
                (decreased user_id b.cents b.cents (other t).now
                  (find (of_user user_id) (other t).balances))
                (other t).balances
            ∙ rw stored (ground arith),
      )
