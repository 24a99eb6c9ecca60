-- ===== src/Concurrent/Orders.antt =====
-- The orders that the batch has updated and has still to update.
use gomart.Prelude.{
  ℕ, ◌≡◌, ◌≢◌, refl, sym, ap, Option-cases, inl, inr, none, some, List, [], ◌∷◌, ◌++◌, map, ok,
  arith, All, All-append_left, All-middle, All-map,
}
use gomart.Prelude.Int.{pos, ◌≤ℤ◌, int_laws}
use gomart.Store.{Order}
use gomart.Tables.{has_order, parse_status, update_order}
use gomart.Tables.Rows.{OrderStatus, OrderRow, BalanceRow, Tables, find}
use gomart.Ledger.{total_accrual}
use gomart.Ledger.Credits.{AreDistinct}
use gomart.Accrual.Answers.{IsCandidate}
use gomart.System.Sent.{find-snoc}
use gomart.Concurrent.{put_balances, Queued, update, inc, Batch, queued, no_batch}
use gomart.Concurrent.Versions.{AreApart, Replaces}
use gomart.Concurrent.Balances.{to_update, to_increase, AddsUp}

abbrev pub updates : List Queued → List Order
updates [] = []
updates (update o ∷ q) = o ∷ updates q
updates (inc o ∷ q) = updates q

abbrev pub increases : List Queued → List Order
increases [] = []
increases (update o ∷ q) = increases q
increases (inc o ∷ q) = o ∷ increases q

abbrev pub row_number : OrderRow → ℕ
row_number row = row.order_id

abbrev pub order_number : Order → ℕ
order_number o = o.order_id

abbrev pub Gains : Order → Type 0
Gains o = pos 0 ≤ℤ o.accrual.cents

pub record AreAnswered (rows : List OrderRow) (b : Batch) : Type 0 where
  pub apart : AreApart (map row_number b.orders ++ map order_number (updates b.queue))
  pub written : All (Replaces rows) b.orders
  pub to_write : All (IsCandidate rows) (updates b.queue)
  pub gains : All Gains (increases b.queue)

pub AreApart-append_left : (xs ys : List ℕ) → AreApart (xs ++ ys) → AreApart xs
AreApart-append_left [] ys h = tt
AreApart-append_left (x ∷ xs) ys h =
    (All-append_left (λ j. j ≢ x) xs ys h.0, AreApart-append_left xs ys h.1)

pub AreApart-middle : (xs ys : List ℕ) (k : ℕ) → AreApart (xs ++ k ∷ ys) → All (λ j. j ≢ k) xs
AreApart-middle [] ys k h = tt
AreApart-middle (x ∷ xs) ys k h =
    ((λ e. (All-middle (λ j. j ≢ x) xs ys k h.0) (sym e)), AreApart-middle xs ys k h.1)

updates-queued : (os ps : List Order) → updates (map update os ++ map inc ps) ≡ os
updates-queued [] [] = refl
updates-queued [] (p ∷ ps) = updates-queued [] ps
updates-queued (o ∷ os) ps = ap (λ l. o ∷ l) (updates-queued os ps)

increases-queued : (os ps : List Order) → increases (map update os ++ map inc ps) ≡ ps
increases-queued [] [] = refl
increases-queued [] (p ∷ ps) = ap (λ l. p ∷ l) (increases-queued [] ps)
increases-queued (o ∷ os) ps = increases-queued os ps

to_increase-queued :
    (id : ℕ) (os ps : List Order)
    → to_increase id (map update os ++ map inc ps) ≡ to_increase id (map inc ps)
unfolding to_increase
to_increase-queued id [] ps = refl
to_increase-queued id (o ∷ os) ps = to_increase-queued id os ps

to_update-incs : (id : ℕ) (ps : List Order) → to_update id (map inc ps) ≡ pos 0
unfolding to_update
to_update-incs id [] = refl
to_update-incs id (p ∷ ps) = to_update-incs id ps

to_update-queued :
    (id : ℕ) (os ps : List Order)
    → to_update id (map update os ++ map inc ps) ≡ to_increase id (map inc os)
unfolding to_update to_increase
to_update-queued id [] ps = to_update-incs id ps
to_update-queued id (o ∷ os) ps = rw (to_update-queued id os ps) refl

numbers_differ :
    (k : ℕ) (os : List Order)
    → All (λ p. p.order_id ≢ k) os
    → All (λ j. j ≢ k) (map order_number os)
numbers_differ k [] h = tt
numbers_differ k (o ∷ os) h = (h.0, numbers_differ k os h.1)

AreApart-distinct : (os : List Order) → AreDistinct os → AreApart (map order_number os)
AreApart-distinct [] h = tt
AreApart-distinct (o ∷ os) h = (numbers_differ o.order_id os h.0, AreApart-distinct os h.1)

AreGains : (rows : List OrderRow) (os : List Order) → All (IsCandidate rows) os → All Gains os
AreGains rows [] h = tt
AreGains rows (o ∷ os) h = (h.0.gains, AreGains rows os h.1)

pub queued-AreAnswered :
    (rows : List OrderRow) (os : List Order)
    → All (IsCandidate rows) os
    → AreDistinct os
    → AreAnswered rows (queued os)
queued-AreAnswered rows os c d = record {
  apart = rw (updates-queued os os) (AreApart-distinct os d);
  written = tt;
  to_write = rw (updates-queued os os) c;
  gains = rw (increases-queued os os) (AreGains rows os c);
}

pub no_batch-AreAnswered : (rows : List OrderRow) → AreAnswered rows no_batch
no_batch-AreAnswered rows = record { apart = tt; written = tt; to_write = tt; gains = tt }

pub queued-AddsUp : (rows : List BalanceRow) (os : List Order) → AddsUp rows (queued os)
unfolding put_balances total_accrual
queued-AddsUp rows os = record {
  current = λ id. rw (to_increase-queued id os os, to_update-queued id os os) (omega int_laws);
  withdrawn = λ id. refl;
  grows = λ id. omega arith;
}

pub no_batch-AddsUp : (rows : List BalanceRow) → AddsUp rows no_batch
unfolding put_balances total_accrual to_update to_increase
no_batch-AddsUp rows = record {
  current = λ id. omega int_laws;
  withdrawn = λ id. refl;
  grows = λ id. omega arith;
}

-- An order with a new number is uploaded.
IsCandidate-snoc :
    (rows : List OrderRow) (row : OrderRow) (o : Order)
    → IsCandidate rows o
    → IsCandidate (rows ++ row ∷ []) o
IsCandidate-snoc rows row o c = record {
  row = c.row;
  found = find-snoc o.order_id rows row c.row c.found;
  owner = c.owner;
  unpaid = c.unpaid;
  gains = c.gains;
  no_advance = c.no_advance;
}

Replaces-snoc :
    (rows : List OrderRow) (row r : OrderRow) → Replaces rows r → Replaces (rows ++ row ∷ []) r
Replaces-snoc rows row r h = record {
  old = h.old;
  found = find-snoc r.order_id rows row h.old h.found;
  owner = h.owner;
  was_unpaid = h.was_unpaid;
  unpaid = h.unpaid;
}

pub AreAnswered-snoc :
    (rows : List OrderRow) (row : OrderRow) (b : Batch)
    → AreAnswered rows b
    → AreAnswered (rows ++ row ∷ []) b
AreAnswered-snoc rows row b h = record {
  apart = h.apart;
  written =
      All-map (Replaces rows) (Replaces (rows ++ row ∷ [])) b.orders (Replaces-snoc rows row)
        h.written;
  to_write =
      All-map (IsCandidate rows) (IsCandidate (rows ++ row ∷ [])) (updates b.queue)
        (IsCandidate-snoc rows row) h.to_write;
  gains = h.gains;
}

-- What the statement that updates an order writes.
pub record IsUpdate (o : Order) (rows : List OrderRow) (row : OrderRow) : Type 0 where
  pub old : OrderRow
  pub status : OrderStatus
  pub found : find (has_order o.order_id) rows ≡ some old
  pub parsed : parse_status o.status ≡ some status
  pub now : ℕ
  pub is : row ≡ record old { status = status; accrual = o.accrual.cents; changed_at = now }

pub update_order-IsUpdate :
    (o : Order) (t : Tables) (row : OrderRow)
    → (update_order o.order_id o.status o.accrual t).0 ≡ ok (some row)
    → IsUpdate o t.orders row
unfolding update_order
update_order-IsUpdate o t row e = elim (Option-cases (parse_status o.status)) [
  | inl bad ↦ absurd (ground (arith, bad, e))
  | inr (s, parsed) ↦ elim (Option-cases (find (has_order o.order_id) t.orders)) [
    | inl missing ↦ absurd (ground (arith, parsed, missing, e))
    | inr (old, found) ↦ record {
      old = old;
      status = s;
      found = found;
      parsed = parsed;
      now = t.now;
      is = ground (arith, parsed, found, e);
    }
  ]
]

pub update_order-nothing :
    (o : Order) (t : Tables)
    → (update_order o.order_id o.status o.accrual t).0 ≡ ok none
    → find (has_order o.order_id) t.orders ≡ none
unfolding update_order
update_order-nothing o t e = ground (arith, e)
