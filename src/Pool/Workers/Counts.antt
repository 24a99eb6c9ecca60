-- ===== src/Pool/Workers/Counts.antt =====
-- While the context goes on, no order gets lost and none is asked for twice.
use gomart.Prelude.{
  ℕ, zero, suc, ◌+◌, ◌≡◌, refl, ◌∙◌, Bool, false, some, List, [], ◌∷◌, ◌++◌, Bytes, All, arith,
  ◌==◌, if◌then◌else◌,
}
use gomart.Store.{Order}
use gomart.Pool.{
  OrderAccrual, Exchange, Job, JobResult, run_job, new_p_get_req, unreachable, cancelled, answered,
}
use gomart.Pool.Workers.{
  Sender, looping, closed, offering, Worker, idle, left, asking, holding, PoolState, idle_workers,
  Step, cancel, new_job, stop_sending, all_sent, offer, take_job, drop_job, leave, answer, abort,
  deliver, receive, give_up, return, Steps, none_yet, then_step,
}

abbrev pub one_if : Bool → ℕ
one_if b = if b then 1 else 0

Step-not_cancelled :
    (decode : Bytes → OrderAccrual × Bool) (s t : PoolState)
    → Step decode s t
    → t.cancelled ≡ false
    → s.cancelled ≡ false
Step-not_cancelled decode s _ (cancel e) n = e
Step-not_cancelled decode s _ (new_job o os e q c) n = n
Step-not_cancelled decode s _ (stop_sending o os e q c) n = n
Step-not_cancelled decode s _ (all_sent e q) n = n
Step-not_cancelled decode s _ (offer j e room) n = n
Step-not_cancelled decode s _ (take_job j js before after q e c) n = n
Step-not_cancelled decode s _ (drop_job j js before after q e c) n = n
Step-not_cancelled decode s _ (leave before after q c e) n = n
Step-not_cancelled decode s _ (answer j exchange res before after e r) n = n
Step-not_cancelled decode s _ (abort j exchange before after e r c) n = n
Step-not_cancelled decode s _ (deliver res before after e room) n = n
Step-not_cancelled decode s _ (receive res rest c q d) n = n
Step-not_cancelled decode s _ (give_up res rest c q d) n = n
Step-not_cancelled decode s _ (return c q l) n = n

module _ (id : ℕ) where
  abbrev pub order_count : Order → ℕ
  order_count o = one_if (o.order_id == id)

  -- How often an order's number stands in a list of orders, jobs, results.
  unfoldable pub count_orders : List Order → ℕ
  count_orders [] = 0
  count_orders (o ∷ os) = order_count o + count_orders os

  unfoldable pub count_results : List JobResult → ℕ
  count_results [] = 0
  count_results (r ∷ rs) = order_count r.value + count_results rs

  unfoldable pub count_jobs : List Job → ℕ
  count_jobs [] = 0
  count_jobs (j ∷ js) = order_count j.value + count_jobs js

  abbrev pub sender_count : Sender → ℕ
  sender_count looping = 0
  sender_count closed = 0
  sender_count (offering j) = order_count j.value

  abbrev pub worker_count_of : Worker → ℕ
  worker_count_of idle = 0
  worker_count_of left = 0
  worker_count_of (asking j) = order_count j.value
  worker_count_of (holding res) = order_count res.value

  unfoldable pub count_workers : List Worker → ℕ
  count_workers [] = 0
  count_workers (w ∷ ws) = worker_count_of w + count_workers ws

  count_results-append :
      (xs ys : List JobResult) → count_results (xs ++ ys) ≡ count_results xs + count_results ys
  unfolding count_results
  count_results-append [] ys = omega arith
  count_results-append (x ∷ xs) ys = omega (arith, count_results-append xs ys)

  count_results_cons :
      (x : JobResult) (xs : List JobResult)
      → count_results (x ∷ xs) ≡ order_count x.value + count_results xs
  unfolding count_results
  count_results_cons x xs = refl

  count_results_one : (x : JobResult) → count_results (x ∷ []) ≡ order_count x.value
  unfolding count_results
  count_results_one x = omega arith

  count_jobs-append : (xs ys : List Job) → count_jobs (xs ++ ys) ≡ count_jobs xs + count_jobs ys
  unfolding count_jobs
  count_jobs-append [] ys = omega arith
  count_jobs-append (x ∷ xs) ys = omega (arith, count_jobs-append xs ys)

  count_workers-middle :
      (before after : List Worker) (w : Worker)
      → count_workers (before ++ w ∷ after)
        ≡ worker_count_of w + (count_workers before + count_workers after)
  unfolding count_workers
  count_workers-middle [] after w = omega arith
  count_workers-middle (v ∷ before) after w = omega (arith, count_workers-middle before after w)

  count_workers-changed :
      (before after : List Worker) (w w' : Worker) (ws : List Worker)
      → ws ≡ before ++ w ∷ after
      → count_workers (before ++ w' ∷ after) + worker_count_of w
        ≡ count_workers ws + worker_count_of w'
  count_workers-changed before after w w' ws e =
      rw e
        (omega (arith, count_workers-middle before after w, count_workers-middle before after w'))

  pub count_workers-idle : (n : ℕ) → count_workers (idle_workers n) ≡ 0
  unfolding count_workers
  count_workers-idle zero = refl
  count_workers-idle (suc n) = omega (arith, count_workers-idle n)

  pub count_workers-left : (ws : List Worker) → All (λ w. w ≡ left) ws → count_workers ws ≡ 0
  unfolding count_workers
  count_workers-left [] h = refl
  count_workers-left (w ∷ ws) h = rw h.0 (omega (arith, count_workers-left ws h.1))

  unfoldable pub count_all : PoolState → ℕ
  count_all s =
      count_orders s.todo
      + sender_count s.sender
      + count_jobs s.jobs
      + count_workers s.workers
      + count_results s.results
      + count_results s.taken

  run_job-count :
      (decode : Bytes → OrderAccrual × Bool) (j : Job) (exchange : Exchange) (res : JobResult)
      → run_job decode j exchange ≡ some res
      → order_count res.value ≡ order_count j.value
  unfolding run_job new_p_get_req
  run_job-count decode j unreachable res e = ground arith
  run_job-count decode j cancelled res e = cc
  run_job-count decode j (answered status retry_after body) res e = ground arith

  Step-count_all :
      (decode : Bytes → OrderAccrual × Bool) (s t : PoolState)
      → Step decode s t
      → t.cancelled ≡ false
      → count_all t ≡ count_all s
  unfolding count_all count_orders count_jobs
  Step-count_all decode s _ (cancel e) n = cc
  Step-count_all decode s _ (new_job o os e q c) n = rw (e, q) (omega arith)
  Step-count_all decode s _ (stop_sending o os e q c) n = cc
  Step-count_all decode s _ (all_sent e q) n = rw e refl
  Step-count_all decode s _ (offer j e room) n =
      rw e (omega (arith, count_jobs-append s.jobs (j ∷ [])))
  Step-count_all decode s _ (take_job j js before after q e c) n =
      rw q (omega (arith, count_workers-changed before after idle (asking j) s.workers e))
  Step-count_all decode s _ (drop_job j js before after q e c) n = cc
  Step-count_all decode s _ (leave before after q c e) n =
      omega (arith, count_workers-changed before after idle left s.workers e)
  Step-count_all decode s _ (answer j exchange res before after e r) n = omega (
    arith,
    count_workers-changed before after (asking j) (holding res) s.workers e,
    run_job-count decode j exchange res r,
  )
  Step-count_all decode s _ (abort j exchange before after e r c) n = cc
  Step-count_all decode s _ (deliver res before after e room) n = omega (
    arith,
    count_workers-changed before after (holding res) idle s.workers e,
    count_results-append s.results (res ∷ []),
    count_results_one res,
  )
  Step-count_all decode s _ (receive res rest c q d) n =
      rw (q, count_results_cons res rest)
        (omega (arith, count_results-append s.taken (res ∷ []), count_results_one res))
  Step-count_all decode s _ (give_up res rest c q d) n = cc
  Step-count_all decode s _ (return c q l) n = refl

  pub Steps-count_all :
      (decode : Bytes → OrderAccrual × Bool) (s : PoolState) (n : ℕ) (t : PoolState)
      → Steps decode s n t
      → t.cancelled ≡ false
      → count_all t ≡ count_all s
  Steps-count_all decode s _ _ none_yet c = refl
  Steps-count_all decode s _ _ (then_step {n} {t} {u} r st) c =
      Step-count_all decode t u st c
      ∙ Steps-count_all decode s n t r (Step-not_cancelled decode t u st c)
