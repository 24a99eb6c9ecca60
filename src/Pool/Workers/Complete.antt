-- ===== src/Pool/Workers/Complete.antt =====
-- When the loop over `results` has come to its end and the context goes on, every order has its
-- result.
use gomart.Prelude.{
  ℕ, zero, suc, ◌<◌, ◌≡◌, ◌≢◌, refl, subst, ◌∙◌, Bool, false, List, [], ◌∷◌, ◌++◌, Bytes, All,
  All-middle, All-changed, All-map, length, length-append, arith,
}
use gomart.Store.{Order}
use gomart.Pool.{OrderAccrual, Job, JobResult}
use gomart.Pool.Workers.{
  Sender, looping, closed, Worker, idle, left, asking, holding, returned, PoolState, idle_workers,
  start_pool, Step, cancel, new_job, stop_sending, all_sent, offer, take_job, drop_job, leave,
  answer, abort, deliver, receive, give_up, return, Steps, none_yet, then_step,
}
use gomart.Pool.Workers.Counts.{
  count_orders, count_jobs, count_workers-left, count_workers-idle, count_results, count_all,
  Steps-count_all,
}

-- A worker has returned only when there was nothing left to do.
abbrev Quits : List Job → Sender → Worker → Type 0
Quits jobs sender w = w ≡ left → (jobs ≡ []) × (sender ≡ closed)

record InOrder (s : PoolState) : Type 0 where
  sent : s.cancelled ≡ false → s.sender ≡ closed → s.todo ≡ []
  quits : s.cancelled ≡ false → All (Quits s.jobs s.sender) s.workers
  ended : s.collector ≡ returned → All (λ w. w ≡ left) s.workers × (s.results ≡ [])

not_ended :
    (before after : List Worker) (w : Worker) (ws : List Worker) (results : List JobResult)
    → ws ≡ before ++ w ∷ after
    → w ≢ left
    → ¬ (All (λ v. v ≡ left) ws × (results ≡ []))
not_ended before after w ws results e n (h, _) =
    n (All-middle (λ v. v ≡ left) before after w (subst (All (λ v. v ≡ left)) e h))

Quits-changed :
    (jobs : List Job) (sender : Sender) (before after : List Worker) (w w' : Worker)
    (ws : List Worker)
    → ws ≡ before ++ w ∷ after
    → All (Quits jobs sender) ws
    → Quits jobs sender w'
    → All (Quits jobs sender) (before ++ w' ∷ after)
Quits-changed jobs sender before after w w' ws e h q =
    All-changed (Quits jobs sender) before after w w' (subst (All (Quits jobs sender)) e h) q

Quits-open :
    (jobs jobs' : List Job) (sender sender' : Sender) (ws : List Worker)
    → sender ≢ closed
    → All (Quits jobs sender) ws
    → All (Quits jobs' sender') ws
Quits-open jobs jobs' sender sender' ws n h =
    All-map (Quits jobs sender) (Quits jobs' sender') ws (λ w q l. absurd (n (q l).1)) h

Quits-waiting :
    (jobs jobs' : List Job) (sender sender' : Sender) (ws : List Worker)
    → jobs ≢ []
    → All (Quits jobs sender) ws
    → All (Quits jobs' sender') ws
Quits-waiting jobs jobs' sender sender' ws n h =
    All-map (Quits jobs sender) (Quits jobs' sender') ws (λ w q l. absurd (n (q l).0)) h

idle-not_left : idle ≢ left
idle-not_left e = cc

asking-not_left : (j : Job) → asking j ≢ left
asking-not_left j e = cc

holding-not_left : (res : JobResult) → holding res ≢ left
holding-not_left res e = cc

Step-InOrder :
    (decode : Bytes → OrderAccrual × Bool) (s t : PoolState)
    → Step decode s t
    → InOrder s
    → InOrder t
Step-InOrder decode s _ (cancel e) h = record {
  sent = λ n c. cc;
  quits = λ n. absurd (ground arith);
  ended = h.ended;
}
Step-InOrder decode s _ (new_job o os e q c) h = record {
  sent = λ n d. cc;
  quits = λ n. Quits-open s.jobs s.jobs s.sender _ s.workers (λ d. cc) (h.quits n);
  ended = h.ended;
}
Step-InOrder decode s _ (stop_sending o os e q c) h = record {
  sent = λ n d. cc;
  quits = λ n. absurd (ground arith);
  ended = h.ended;
}
Step-InOrder decode s _ (all_sent e q) h = record {
  sent = λ n d. q;
  quits = λ n. Quits-open s.jobs s.jobs s.sender closed s.workers (λ d. cc) (h.quits n);
  ended = h.ended;
}
Step-InOrder decode s _ (offer j e room) h = record {
  sent = λ n d. cc;
  quits =
      λ n. Quits-open s.jobs (s.jobs ++ j ∷ []) s.sender looping s.workers (λ d. cc) (h.quits n);
  ended = h.ended;
}
Step-InOrder decode s _ (take_job j js before after q e c) h = record {
  sent = h.sent;
  quits = λ n.
      Quits-changed js s.sender before after idle (asking j) s.workers e
        (Quits-waiting s.jobs js s.sender s.sender s.workers (λ d. cc) (h.quits n)) (λ l. cc);
  ended = λ r. absurd (not_ended before after idle s.workers s.results e idle-not_left (h.ended r));
}
Step-InOrder decode s _ (drop_job j js before after q e c) h = record {
  sent = λ n d. absurd (ground arith);
  quits = λ n. absurd (ground arith);
  ended = λ r. absurd (not_ended before after idle s.workers s.results e idle-not_left (h.ended r));
}
Step-InOrder decode s _ (leave before after q c e) h = record {
  sent = h.sent;
  quits = λ n.
      Quits-changed s.jobs s.sender before after idle left s.workers e (h.quits n) (λ l. (q, c));
  ended = λ r. absurd (not_ended before after idle s.workers s.results e idle-not_left (h.ended r));
}
Step-InOrder decode s _ (answer j exchange res before after e r) h = record {
  sent = h.sent;
  quits = λ n.
      Quits-changed s.jobs s.sender before after (asking j) (holding res) s.workers e (h.quits n)
        (λ l. cc);
  ended = λ d.
      absurd
        (not_ended before after (asking j) s.workers s.results e (asking-not_left j) (h.ended d));
}
Step-InOrder decode s _ (abort j exchange before after e r c) h = record {
  sent = λ n d. absurd (ground arith);
  quits = λ n. absurd (ground arith);
  ended = λ d.
      absurd
        (not_ended before after (asking j) s.workers s.results e (asking-not_left j) (h.ended d));
}
Step-InOrder decode s _ (deliver res before after e room) h = record {
  sent = h.sent;
  quits = λ n.
      Quits-changed s.jobs s.sender before after (holding res) idle s.workers e (h.quits n)
        (λ l. cc);
  ended = λ d. absurd (
      not_ended before after (holding res) s.workers s.results e (holding-not_left res)
        (h.ended d));
}
Step-InOrder decode s _ (receive res rest c q d) h = record {
  sent = h.sent;
  quits = h.quits;
  ended = λ r. absurd (ground (arith, c, r));
}
Step-InOrder decode s _ (give_up res rest c q d) h = record {
  sent = h.sent;
  quits = h.quits;
  ended = λ r. absurd (ground arith);
}
Step-InOrder decode s _ (return c q l) h = record {
  sent = h.sent;
  quits = h.quits;
  ended = λ r. (l, q);
}

idle_workers-Quits : (n : ℕ) → All (Quits [] looping) (idle_workers n)
idle_workers-Quits zero = tt
idle_workers-Quits (suc n) = ((λ l. cc), idle_workers-Quits n)

Steps-InOrder :
    (decode : Bytes → OrderAccrual × Bool) (k jid : ℕ) (orders : List Order) (n : ℕ) (t : PoolState)
    → Steps decode (start_pool k jid orders) n t
    → InOrder t
Steps-InOrder decode k jid orders _ _ none_yet = record {
  sent = λ n c. cc;
  quits = λ n. idle_workers-Quits k;
  ended = λ r. absurd (ground arith);
}
Steps-InOrder decode k jid orders _ _ (then_step {n} {t} {u} r st) =
    Step-InOrder decode t u st (Steps-InOrder decode k jid orders n t r)

length-idle_workers : (n : ℕ) → length (idle_workers n) ≡ n
length-idle_workers zero = refl
length-idle_workers (suc n) = omega (arith, length-idle_workers n)

length-changed :
    (before after : List Worker) (w w' : Worker) (ws : List Worker)
    → ws ≡ before ++ w ∷ after
    → length (before ++ w' ∷ after) ≡ length ws
length-changed before after w w' ws e =
    rw e (omega (arith, length-append before (w ∷ after), length-append before (w' ∷ after)))

Step-length :
    (decode : Bytes → OrderAccrual × Bool) (s t : PoolState)
    → Step decode s t
    → length t.workers ≡ length s.workers
Step-length decode s _ (cancel e) = refl
Step-length decode s _ (new_job o os e q c) = refl
Step-length decode s _ (stop_sending o os e q c) = refl
Step-length decode s _ (all_sent e q) = refl
Step-length decode s _ (offer j e room) = refl
Step-length decode s _ (take_job j js before after q e c) =
    length-changed before after idle (asking j) s.workers e
Step-length decode s _ (drop_job j js before after q e c) =
    length-changed before after idle left s.workers e
Step-length decode s _ (leave before after q c e) =
    length-changed before after idle left s.workers e
Step-length decode s _ (answer j exchange res before after e r) =
    length-changed before after (asking j) (holding res) s.workers e
Step-length decode s _ (abort j exchange before after e r c) =
    length-changed before after (asking j) left s.workers e
Step-length decode s _ (deliver res before after e room) =
    length-changed before after (holding res) idle s.workers e
Step-length decode s _ (receive res rest c q d) = refl
Step-length decode s _ (give_up res rest c q d) = refl
Step-length decode s _ (return c q l) = refl

Steps-length :
    (decode : Bytes → OrderAccrual × Bool) (k jid : ℕ) (orders : List Order) (n : ℕ) (t : PoolState)
    → Steps decode (start_pool k jid orders) n t
    → length t.workers ≡ k
Steps-length decode k jid orders _ _ none_yet = length-idle_workers k
Steps-length decode k jid orders _ _ (then_step {n} {t} {u} r st) =
    Step-length decode t u st ∙ Steps-length decode k jid orders n t r

first-left :
    (jobs : List Job) (sender : Sender) (ws : List Worker)
    → 0 < length ws
    → All (λ w. w ≡ left) ws
    → All (Quits jobs sender) ws
    → (jobs ≡ []) × (sender ≡ closed)
first-left jobs sender [] h l q = absurd (omega (arith, h))
first-left jobs sender (w ∷ ws) h l q = q.0 l.0

-- If there are workers and the context has not ended when the loop over `results` comes to its end,
-- then, in whatever order the goroutines were scheduled, every order number stands in the results
-- that the loop has received as often as in the orders that were sent for.
pub Steps-complete :
    (decode : Bytes → OrderAccrual × Bool) (worker_count jid : ℕ) (orders : List Order) (n : ℕ)
    (s : PoolState) (id : ℕ)
    → 0 < worker_count
    → Steps decode (start_pool worker_count jid orders) n s
    → s.collector ≡ returned
    → s.cancelled ≡ false
    → count_results id s.taken ≡ count_orders id orders
unfolding count_all count_orders count_jobs count_results
Steps-complete decode k jid orders n s id some_worker r c d =
    let h = Steps-InOrder decode k jid orders n s r in
    let (all_left, drained) = h.ended c in
    let (no_jobs, closed_) =
      first-left s.jobs s.sender s.workers (omega (arith, Steps-length decode k jid orders n s r))
        all_left (h.quits d) in
    let no_todo = h.sent d closed_ in
    let kept = Steps-count_all id decode (start_pool k jid orders) n s r d in
    let none_there = count_workers-left id s.workers all_left in
    let none_before = count_workers-idle id k in
    let empty : count_all id s ≡ count_results id s.taken =
      rw (drained, no_jobs, closed_, no_todo) (omega (arith, none_there)) in
    omega (arith, empty, kept, none_before)
