-- ===== src/Accrual/Answers.antt =====
-- What the accrual client sends to the store: for different open orders, as they stand in the table,
-- the points and the status that the accrual system has answered.
use gomart.Prelude.{
  ℕ, Bytes, ◌≡◌, ◌≢◌, refl, sym, subst, ◌∙◌, inl, inr, Bool, true, Bool-cases, Option-cases, some,
  List, [], ◌∷◌, ◌==◌, arith, All,
}
use gomart.Prelude.Int.{pos, ◌≤ℤ◌}
use gomart.Store.{Order}
use gomart.Tables.{parse_status, is_open, has_order}
use gomart.Tables.Rows.{OrderStatus, OrderRow, find}
use gomart.Batch.Effect.{IsStatus}
use gomart.Ledger.Credits.{IsAnswer, AreDistinct}
use gomart.Pool.{
  OrderAccrual, Exchange, unreachable, cancelled, answered, Job, JobResult, http_success_code,
  read_response, new_p_get_req, run_job,
}
use gomart.Pool.Workers.Replies.{Among, first, later, IsReply}
use gomart.Accrual.{
  Collected, put_order, get_order, collect_step, collect_from, collect, changed_order,
  changed_orders,
}

-- What the specification of the accrual system says of a body: the points are not negative, and an
-- order that is still open has none.
pub record IsHonest (decode : Bytes → OrderAccrual × Bool) : Type 0 where
  pub gains : (body : Bytes) → pos 0 ≤ℤ (decode body).0.accrual.cents
  pub no_advance :
      (body : Bytes) (s : OrderStatus)
      → parse_status (decode body).0.status ≡ some s
      → is_open s ≡ true
      → (decode body).0.accrual.cents ≡ pos 0

-- An order of the table, still open and without points, with a new status and new points.
pub record IsCandidate (rows : List OrderRow) (o : Order) : Type 0 where
  pub row : OrderRow
  pub found : find (has_order o.order_id) rows ≡ some row
  pub owner : row.user_id ≡ o.user_id
  pub unpaid : row.accrual ≡ pos 0
  pub gains : pos 0 ≤ℤ o.accrual.cents
  pub no_advance :
      (s : OrderStatus)
      → parse_status o.status ≡ some s
      → is_open s ≡ true
      → o.accrual.cents ≡ pos 0

pub IsAnswer-of_IsCandidate :
    (rows : List OrderRow) (o : Order) → IsCandidate rows o → IsStatus o → IsAnswer rows o
IsAnswer-of_IsCandidate rows o c (s, parsed) = record {
  row = c.row;
  status = s;
  found = c.found;
  owner = c.owner;
  unpaid = c.unpaid;
  parsed = parsed;
  gains = c.gains;
}

-- The order that was sent for.
pub record IsSent (rows : List OrderRow) (o : Order) : Type 0 where
  pub row : OrderRow
  pub found : find (has_order o.order_id) rows ≡ some row
  pub owner : row.user_id ≡ o.user_id
  pub unpaid : row.accrual ≡ pos 0

module _ (decode : Bytes → OrderAccrual × Bool) (honest : IsHonest decode)
    (rows : List OrderRow) where
  IsSent-of_Among :
      (orders : List Order) (o : Order) → All (IsSent rows) orders → Among orders o → IsSent rows o
  IsSent-of_Among _ o h first = h.0
  IsSent-of_Among _ o h (later m) = IsSent-of_Among _ o h.1 m

  run_job-success :
      (j : Job) (exchange : Exchange) (res : JobResult)
      → run_job decode j exchange ≡ some res
      → res.result ≡ http_success_code
      → (body : Bytes) × (res.value
          ≡ record j.value { accrual = (decode body).0.accrual; status = (decode body).0.status })
  unfolding run_job new_p_get_req read_response
  run_job-success j unreachable res e s = absurd (ground arith)
  run_job-success j cancelled res e s = cc
  run_job-success j (answered status retry_after body) res e s = (body, ground arith)

  IsCandidate-of_IsReply :
      (orders : List Order) (res : JobResult)
      → All (IsSent rows) orders
      → IsReply decode orders res
      → (res.result ≡ http_success_code)
      → IsCandidate rows res.value
  IsCandidate-of_IsReply orders res h r success =
      let sent = IsSent-of_Among orders r.order h r.sent in
      let (body, value) =
        run_job-success (record { id = r.id; value = r.order }) r.exchange res r.ran success in
      subst (IsCandidate rows) (sym value) (record {
        row = sent.row;
        found = sent.found;
        owner = sent.owner;
        unpaid = sent.unpaid;
        gains = honest.gains body;
        no_advance = honest.no_advance body;
      })

  -- What the map holds under a number.
  abbrev pub IsKept : ℕ × Order → Type 0
  IsKept (id, v) = (v.order_id ≡ id) × IsCandidate rows v

  put_order-AreKept :
      (id : ℕ) (v : Order) (m : List (ℕ × Order))
      → IsKept (id, v)
      → All IsKept m
      → All IsKept (put_order id v m)
  put_order-AreKept id v [] p h = (p, tt)
  put_order-AreKept id v ((k, u) ∷ m) p h = elim (Bool-cases (k == id)) [
    | inl e ↦ rw e (p, h.1)
    | inr e ↦ rw e (h.0, put_order-AreKept id v m p h.1)
  ]

  get_order-IsKept :
      (id : ℕ) (v : Order) (m : List (ℕ × Order))
      → All IsKept m
      → get_order id m ≡ some v
      → IsKept (id, v)
  get_order-IsKept id v [] h e = cc
  get_order-IsKept id v ((k, u) ∷ m) h e = elim (Bool-cases (k == id)) [
    | inl q ↦ let same : (k, u) ≡ (id, v) = ground arith in subst IsKept same h.0
    | inr q ↦ get_order-IsKept id v m h.1 (ground arith)
  ]

  collect_step-AreKept :
      (orders : List Order) (c : Collected) (res : JobResult)
      → All (IsSent rows) orders
      → IsReply decode orders res
      → All IsKept c.res_orders
      → All IsKept (collect_step c res).res_orders
  unfolding collect_step
  collect_step-AreKept orders c res h r k = elim (Bool-cases (res.result == http_success_code)) [
    | inl e ↦
        let fine = IsCandidate-of_IsReply orders res h r (ground arith) in
        ground (arith, put_order-AreKept res.value.order_id res.value c.res_orders (refl, fine) k)
    | inr e ↦ ground arith
  ]

  collect_from-AreKept :
      (orders : List Order) (c : Collected) (results : List JobResult)
      → All (IsSent rows) orders
      → All (IsReply decode orders) results
      → All IsKept c.res_orders
      → All IsKept (collect_from c results).res_orders
  unfolding collect_from
  collect_from-AreKept orders c [] h r k = k
  collect_from-AreKept orders c (res ∷ results) h r k =
      collect_from-AreKept orders (collect_step c res) results h r.1
        (collect_step-AreKept orders c res h r.0 k)

  pub collect-AreKept :
      (orders : List Order) (results : List JobResult)
      → All (IsSent rows) orders
      → All (IsReply decode orders) results
      → All IsKept (collect results).res_orders
  unfolding collect
  collect-AreKept orders results h r = collect_from-AreKept orders _ results h r tt

  changed_order-IsKept :
      (o v : Order) (m : List (ℕ × Order))
      → All IsKept m
      → changed_order m o ≡ some v
      → IsKept (o.order_id, v)
  changed_order-IsKept o v m h e = elim (Option-cases (get_order o.order_id m)) [
    | inl none_there ↦ absurd (ground arith)
    | inr (u, there) ↦
        let same : u ≡ v = ground arith in
        subst (λ x. IsKept (o.order_id, x)) same (get_order-IsKept o.order_id u m h there)
  ]

  changed_orders-differ :
      (id : ℕ) (m : List (ℕ × Order)) (os : List Order)
      → All IsKept m
      → All (λ p. p.order_id ≢ id) os
      → All (λ p. p.order_id ≢ id) (changed_orders m os)
  unfolding changed_orders
  changed_orders-differ id m [] h d = tt
  changed_orders-differ id m (o ∷ os) h d = elim (Option-cases (changed_order m o)) [
    | inl same ↦ rw (same, changed_orders) (changed_orders-differ id m os h d.1)
    | inr (v, e) ↦
        rw (e, changed_orders)
          (
            (λ q. d.0 (sym (changed_order-IsKept o v m h e).0 ∙ q)),
            changed_orders-differ id m os h d.1,
          )
  ]

  -- What is sent to the store are candidates, for different orders.
  pub changed_orders-AreCandidates :
      (m : List (ℕ × Order)) (os : List Order)
      → All IsKept m
      → AreDistinct os
      → All (IsCandidate rows) (changed_orders m os) × AreDistinct (changed_orders m os)
  unfolding changed_orders
  changed_orders-AreCandidates m [] h d = (tt, tt)
  changed_orders-AreCandidates m (o ∷ os) h d =
      let (candidates, distinct) = changed_orders-AreCandidates m os h d.1 in
      elim (Option-cases (changed_order m o)) [
        | inl same ↦ rw (same, changed_orders) (candidates, distinct)
        | inr (v, e) ↦
            let kept = changed_order-IsKept o v m h e in
            rw (e, changed_orders)
              (
                (kept.1, candidates),
                (
                  subst (λ id. All (λ p. p.order_id ≢ id) (changed_orders m os)) (sym kept.0)
                      (changed_orders-differ o.order_id m os h d.0),
                  distinct,
                ),
              )
      ]
