-- ===== src/Concurrent/Rounds.antt =====
-- The steps of the batch, of a round, and of the other handlers, keep what holds.
use gomart.Prelude.{
  ℕ, ◌≡◌, refl, sym, ap, ◌∙◌, inl, inr, ◌⊎◌, Option, none, some, List, [], ◌∷◌, arith, All,
}
use gomart.Prelude.Int.{pos_part, neg_part, int_laws}
use gomart.Store.{Order}
use gomart.Tables.{of_user}
use gomart.Tables.Rows.{OrderRow, Tables, find}
use gomart.Service.Sound.{Uploaded, unchanged, added, Uploaded-keeps}
use gomart.Accrual.Answers.{IsCandidate}
use gomart.Ledger.Credits.{AreDistinct}
use gomart.System.Invariant.{AreWaiting, Uploaded-AreWaiting}
use gomart.Concurrent.{put_orders, Queued, Batch, no_batch, queued, batch_view, Db, locked_user}
use gomart.Concurrent.Balances.{AddsUp}
use gomart.Concurrent.Orders.{
  AreAnswered, AreAnswered-snoc, no_batch-AreAnswered, no_batch-AddsUp, queued-AreAnswered,
  queued-AddsUp,
}
use gomart.Concurrent.Statements.{batch_view-accrual, batch_view-current, batch_view-Unpaid}
use gomart.Concurrent.Versions.{put_orders-IsKeyed}
use gomart.Concurrent.Calls.{IsCalling-put_balances}
use gomart.Concurrent.Requests.{Keeps, Uploaded-accrual}
use gomart.Concurrent.Invariant.{IsAccounted, IsRunning}

module _ (db : Db) (h : IsRunning db) where
  -- The batch moves on.
  pub with_batch :
      (b : Batch)
      → db.sent ≡ none
      → AreAnswered db.tables.orders b
      → AddsUp db.tables.balances b
      → ((i id : ℕ) → locked_user (db.sessions i) ≡ some id → find (of_user id) b.balances ≡ none)
      → IsRunning (record db { batch = b })
  with_batch b none_sent answered adds locks = record {
    accounted = h.accounted;
    keyed = h.keyed;
    unpaid = h.unpaid;
    calls = h.calls;
    locks = h.locks;
    batch_locks = locks;
    answered = answered;
    adds = adds;
    sent = h.sent;
    one_round = inl none_sent;
  }

  pub without_batch : IsRunning (record db { batch = no_batch })
  without_batch = record {
    accounted = h.accounted;
    keyed = h.keyed;
    unpaid = h.unpaid;
    calls = h.calls;
    locks = h.locks;
    batch_locks = λ i id l. refl;
    answered = no_batch-AreAnswered db.tables.orders;
    adds = no_batch-AddsUp db.tables.balances;
    sent = h.sent;
    one_round = inr refl;
  }

  -- A round has sent its orders, or gives up.
  pub with_sent :
      (sent : Option (List Order))
      → AreWaiting db.tables.orders sent
      → (sent ≡ none) ⊎ (db.batch ≡ no_batch)
      → IsRunning (record db { sent = sent })
  with_sent sent waiting one = record {
    accounted = h.accounted;
    keyed = h.keyed;
    unpaid = h.unpaid;
    calls = h.calls;
    locks = h.locks;
    batch_locks = h.batch_locks;
    answered = h.answered;
    adds = h.adds;
    sent = waiting;
    one_round = one;
  }

  pub with_queue :
      (os : List Order)
      → All (IsCandidate db.tables.orders) os
      → AreDistinct os
      → IsRunning (record db { batch = queued os; sent = none })
  with_queue os c d = record {
    accounted = h.accounted;
    keyed = h.keyed;
    unpaid = h.unpaid;
    calls = h.calls;
    locks = h.locks;
    batch_locks = λ i id l. refl;
    answered = queued-AreAnswered db.tables.orders os c d;
    adds = queued-AddsUp db.tables.balances os;
    sent = tt;
    one_round = inl refl;
  }

  pub none_sent : (q : Queued) (later : List Queued) → db.batch.queue ≡ q ∷ later → db.sent ≡ none
  none_sent q later e = elim (h.one_round) [
    | inl none_such ↦ none_such
    | inr over ↦ let empty = sym (ap (λ b. b.queue) over) ∙ e in absurd (ground arith)
  ]

  module _ (e : db.batch.queue ≡ []) where
    batch_view-IsAccounted : IsAccounted (batch_view db.batch db.tables)
    batch_view-IsAccounted = record {
      spent = λ id. h.adds.withdrawn id ∙ h.accounted.spent id;
      earned = λ id.
          let books = h.accounted.earned id in
          rw
            (
              batch_view-current db.tables db.batch h.answered h.adds e id,
              h.adds.withdrawn id,
              batch_view-accrual db.tables db.batch h.answered h.adds e id,
            )
            (omega (int_laws, ap pos_part books, ap neg_part books));
    }

    batch_view-AreWaiting :
        (sent : Option (List Order))
        → (sent ≡ none) ⊎ (db.batch ≡ no_batch)
        → AreWaiting db.tables.orders sent
        → AreWaiting (put_orders db.batch.orders db.tables.orders) sent
    unfolding put_orders
    batch_view-AreWaiting none one w = tt
    batch_view-AreWaiting (some os) (inl none_such) w = absurd (ground arith)
    batch_view-AreWaiting (some os) (inr over) w = rw over w

    pub commit_batch-IsRunning :
        IsRunning (record db { tables = batch_view db.batch db.tables; batch = no_batch })
    commit_batch-IsRunning = record {
      accounted = batch_view-IsAccounted;
      keyed = put_orders-IsKeyed db.batch.orders db.tables.orders h.keyed;
      unpaid = batch_view-Unpaid db.tables db.batch h.answered h.adds e h.unpaid;
      calls = λ i.
          IsCalling-put_balances db.batch.balances db.tables.balances (db.sessions i)
            (h.batch_locks i) (h.calls i);
      locks = h.locks;
      batch_locks = λ i id l. refl;
      answered = no_batch-AreAnswered (batch_view db.batch db.tables).orders;
      adds = no_batch-AddsUp (batch_view db.batch db.tables).balances;
      sent = batch_view-AreWaiting db.sent h.one_round h.sent;
      one_round = inr refl;
    }

  -- A handler that makes no transaction.
  Uploaded-AreAnswered :
      (rows rows' : List OrderRow) (b : Batch)
      → Uploaded rows rows'
      → AreAnswered rows b
      → AreAnswered rows' b
  Uploaded-AreAnswered rows rows' b (unchanged e) a = rw e a
  Uploaded-AreAnswered rows rows' b (added row free none_yet e) a =
      rw e (AreAnswered-snoc rows row b a)

  pub Keeps-IsRunning :
      (t : Tables)
      → Keeps db.tables t
      → Uploaded db.tables.orders t.orders
      → IsRunning (record db { tables = t })
  Keeps-IsRunning t k u =
      let (keyed, unpaid) = Uploaded-keeps db.tables.orders t.orders u h.keyed h.unpaid in
      record {
        accounted = record {
          spent = λ id. rw (k.balances, k.withdrawals) (h.accounted.spent id);
          earned = λ id.
              rw (k.balances, Uploaded-accrual id db.tables.orders t.orders u)
                (h.accounted.earned id);
        };
        keyed = keyed;
        unpaid = unpaid;
        calls = rw k.balances h.calls;
        locks = h.locks;
        batch_locks = h.batch_locks;
        answered = Uploaded-AreAnswered db.tables.orders t.orders db.batch u h.answered;
        adds = rw k.balances h.adds;
        sent = Uploaded-AreWaiting db.tables.orders t.orders db.sent u h.sent;
        one_round = h.one_round;
      }
