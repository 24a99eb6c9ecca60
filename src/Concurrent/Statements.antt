-- ===== src/Concurrent/Statements.antt =====
-- Each statement of the batch, and its end, keep what its rows come to.
use gomart.Prelude.{
  ℕ, ◌≡◌, ◌≢◌, refl, sym, ap, ◌∙◌, none, some, List, [], ◌∷◌, ◌++◌, map, ok, arith, All, All-append,
}
use gomart.Prelude.Int.{pos, pos_part, neg_part, ◌+ℤ◌, int_laws}
use gomart.Store.{Order, zero_decimal}
use gomart.Tables.{has_order, of_user, increased, balance_inc, store_balance, update_order}
use gomart.Tables.Keys.{find-has_order}
use gomart.Tables.Rows.{OrderRow, BalanceRow, Tables, find, put_balance}
use gomart.PgStore.Withdrawal.{current_of}
use gomart.Batch.Effect.{grow}
use gomart.Ledger.{total_accrual}
use gomart.Ledger.Keys.{Unpaid}
use gomart.Accrual.Answers.{IsCandidate}
use gomart.Concurrent.{put_orders, put_balances, Queued, update, inc, Batch, batch_view}
use gomart.Concurrent.Versions.{
  AreApart, Replaces, find-put_orders, put_orders-accrual, put_orders-Unpaid,
}
use gomart.Concurrent.Balances.{AddsUp, AddsUp-increase, to_update, to_increase}
use gomart.Concurrent.Orders.{
  updates, row_number, order_number, Gains, AreAnswered, AreApart-middle, AreApart-append_left,
  update_order-IsUpdate, update_order-nothing,
}

map-snoc :
    (rs : List OrderRow) (row : OrderRow) (ks : List ℕ)
    → map row_number (rs ++ row ∷ []) ++ ks ≡ map row_number rs ++ row.order_id ∷ ks
map-snoc [] row ks = refl
map-snoc (r ∷ rs) row ks = ap (λ l. r.order_id ∷ l) (map-snoc rs row ks)

module _ (rows : List OrderRow) (b : Batch) (h : AreAnswered rows b) (o : Order) (q : List Queued)
    (e : b.queue ≡ update o ∷ q) where
  candidate : IsCandidate rows o
  candidate = let all = rw e at h.to_write in all.0

  number_apart : AreApart (map row_number b.orders ++ o.order_id ∷ map order_number (updates q))
  number_apart = let all = rw e at h.apart in all

  found_before : find (has_order o.order_id) (put_orders b.orders rows) ≡ some candidate.row
  found_before =
      find-put_orders o.order_id b.orders rows (
        AreApart-middle (map row_number b.orders) (map order_number (updates q)) o.order_id
          number_apart)
      ∙ candidate.found

  -- The row that is written is that of the order, with the new status and the points.
  pub record IsWritten (row : OrderRow) : Type 0 where
    pub number : row.order_id ≡ o.order_id
    pub user : row.user_id ≡ o.user_id
    pub accrual : row.accrual ≡ o.accrual.cents
    pub replaces : Replaces rows row

  pub update_order-IsWritten :
      (t : Tables) (row : OrderRow)
      → t.orders ≡ put_orders b.orders rows
      → (update_order o.order_id o.status o.accrual t).0 ≡ ok (some row)
      → IsWritten row
  update_order-IsWritten t row v r =
      let u = update_order-IsUpdate o t row r in
      let c = candidate in
      let seen = ap (find (has_order o.order_id)) (sym v) ∙ u.found in
      let there = found_before in
      let same : u.old ≡ c.row = cc in
      let number : c.row.order_id ≡ o.order_id = find-has_order o.order_id rows c.row c.found in
      rw (u.is, same)
        (record {
          number = number;
          user = c.owner;
          accrual = refl;
          replaces = record {
            old = c.row;
            found = rw number c.found;
            owner = refl;
            was_unpaid = c.unpaid;
            unpaid = c.no_advance u.status u.parsed;
          };
        })

  pub AreAnswered-update :
      (row : OrderRow)
      → IsWritten row
      → AreAnswered rows (record b { queue = q; orders = b.orders ++ row ∷ [] })
  AreAnswered-update row k = record {
    apart = rw (map-snoc b.orders row (map order_number (updates q)), k.number) number_apart;
    written = All-append (Replaces rows) b.orders (row ∷ []) h.written (k.replaces, tt);
    to_write = let all = rw e at h.to_write in all.1;
    gains = let all = rw e at h.gains in all;
  }

  -- The order is there.
  pub update_order-found :
      (t : Tables)
      → t.orders ≡ put_orders b.orders rows
      → (update_order o.order_id o.status o.accrual t).0 ≢ ok none
  update_order-found t v r =
      let gone = ap (find (has_order o.order_id)) (sym v) ∙ update_order-nothing o t r in
      let there = found_before in cc

pub balance_inc-row :
    (o : Order) (t : Tables) (row : BalanceRow)
    → (balance_inc o.user_id o.accrual zero_decimal t).0 ≡ ok row
    → row ≡ increased o.user_id o.accrual.cents (pos 0) t.now (find (of_user o.user_id) t.balances)
unfolding balance_inc store_balance
balance_inc-row o t row e = ground (arith, e)

module _ (b : Batch) (o : Order) (q : List Queued) (e : b.queue ≡ inc o ∷ q) where
  pub AreAnswered-increase :
      (rows : List OrderRow) (bs : List BalanceRow)
      → AreAnswered rows b
      → AreAnswered rows (record b { queue = q; balances = bs })
  AreAnswered-increase rows bs h = record {
    apart = let all = rw e at h.apart in all;
    written = h.written;
    to_write = let all = rw e at h.to_write in all;
    gains = let all = rw e at h.gains in all.1;
  }

  pub AddsUp-balance_inc :
      (rows : List OrderRow) (t : Tables) (row : BalanceRow)
      → AreAnswered rows b
      → (balance_inc o.user_id o.accrual zero_decimal (batch_view b t)).0 ≡ ok row
      → AddsUp t.balances b
      → AddsUp t.balances (record b { queue = q; balances = b.balances ++ row ∷ [] })
  unfolding grow
  AddsUp-balance_inc rows t row h r a =
      let positive : Gains o = (let all = rw e at h.gains in all.0) in
      AddsUp-increase t.balances b a o q t.now e positive row (
        ap (λ x. put_balance x (put_balances b.balances t.balances))
          (balance_inc-row o (batch_view b t) row r))

-- The end of the batch.
module _ (t : Tables) (b : Batch) (h : AreAnswered t.orders b) (a : AddsUp t.balances b)
    (e : b.queue ≡ []) where
  pub batch_view-accrual :
      (id : ℕ)
      → total_accrual id (batch_view b t).orders
        ≡ total_accrual id t.orders +ℤ total_accrual id b.orders
  batch_view-accrual id =
      put_orders-accrual id b.orders t.orders
        (AreApart-append_left (map row_number b.orders) (map order_number (updates b.queue))
          h.apart)
        h.written

  pub batch_view-current :
      (id : ℕ)
      → current_of id (batch_view b t).balances
        ≡ current_of id t.balances +ℤ total_accrual id b.orders
  unfolding to_update to_increase
  batch_view-current id =
      let all = rw e at (a.current id) in omega (int_laws, ap pos_part all, ap neg_part all)

  AreUnpaid : (rs : List OrderRow) → All (Replaces t.orders) rs → All Unpaid rs
  AreUnpaid [] k = tt
  AreUnpaid (r ∷ rs) k = (k.0.unpaid, AreUnpaid rs k.1)

  pub batch_view-Unpaid : All Unpaid t.orders → All Unpaid (batch_view b t).orders
  batch_view-Unpaid u = put_orders-Unpaid b.orders t.orders (AreUnpaid b.orders h.written) u
