-- ===== src/Pool/Workers/Replies.antt =====
-- Each result that the loop over `results` receives is what a worker makes of a request for one of
-- the orders.
use gomart.Prelude.{
  ℕ, zero, suc, ◌≡◌, subst, Bool, Option, none, some, List, [], ◌∷◌, ◌++◌, Bytes, All, All-append,
  All-middle, All-changed,
}
use gomart.Store.{Order}
use gomart.Pool.{OrderAccrual, Exchange, JobResult, run_job}
use gomart.Pool.Workers.{
  Sender, looping, closed, offering, Worker, idle, left, asking, holding, PoolState, idle_workers,
  start_pool, Step, cancel, new_job, stop_sending, all_sent, offer, take_job, drop_job, leave,
  answer, abort, deliver, receive, give_up, return, returned, Steps, none_yet, then_step,
}

-- The value of one of the orders' jobs.
pub data Among {A : Type 0} : List A → A → Type 0 where
  first : {o : A} {os : List A} → Among (o ∷ os) o
  later : {o p : A} {os : List A} → Among os o → Among (p ∷ os) o

pub record IsReply (decode : Bytes → OrderAccrual × Bool) (orders : List Order) (res : JobResult)
    : Type 0 where
  pub order : Order
  pub sent : Among orders order
  pub id : ℕ
  pub exchange : Exchange
  pub ran : run_job decode (record { id = id; value = order }) exchange ≡ some res

All-later :
    (o : Order) (orders os : List Order) → All (Among orders) os → All (Among (o ∷ orders)) os
All-later o orders [] h = tt
All-later o orders (p ∷ os) h = (later h.0, All-later o orders os h.1)

All-Among : (orders : List Order) → All (Among orders) orders
All-Among [] = tt
All-Among (o ∷ os) = (first, All-later o os os (All-Among os))

module _ (decode : Bytes → OrderAccrual × Bool) (orders : List Order) where
  abbrev SenderSends : Sender → Type 0
  SenderSends looping = Unit
  SenderSends closed = Unit
  SenderSends (offering j) = Among orders j.value

  abbrev WorkerSends : Worker → Type 0
  WorkerSends idle = Unit
  WorkerSends left = Unit
  WorkerSends (asking j) = Among orders j.value
  WorkerSends (holding res) = IsReply decode orders res

  -- All that the goroutines hold stems from the orders.
  record Sends (s : PoolState) : Type 0 where
    todo : All (Among orders) s.todo
    sender : SenderSends s.sender
    jobs : All (λ j. Among orders j.value) s.jobs
    workers : All WorkerSends s.workers
    results : All (IsReply decode orders) s.results
    taken : All (IsReply decode orders) s.taken

  workers-Sends :
      (before after : List Worker) (w w' : Worker) (ws : List Worker)
      → ws ≡ before ++ w ∷ after
      → All WorkerSends ws
      → WorkerSends w'
      → All WorkerSends (before ++ w' ∷ after)
  workers-Sends before after w w' ws e h p =
      All-changed WorkerSends before after w w' (rw (← e) h) p

  worker-Sends :
      (before after : List Worker) (w : Worker) (ws : List Worker)
      → ws ≡ before ++ w ∷ after
      → All WorkerSends ws
      → WorkerSends w
  worker-Sends before after w ws e h = All-middle WorkerSends before after w (rw (← e) h)

  Step-Sends : (s t : PoolState) → Step decode s t → Sends s → Sends t
  Step-Sends s _ (cancel e) h = record {
    todo = h.todo;
    sender = h.sender;
    jobs = h.jobs;
    workers = h.workers;
    results = h.results;
    taken = h.taken;
  }
  Step-Sends s _ (new_job o os e q c) h =
      let todo : All (Among orders) (o ∷ os) = subst (All (Among orders)) q h.todo in
      record {
        todo = todo.1;
        sender = todo.0;
        jobs = h.jobs;
        workers = h.workers;
        results = h.results;
        taken = h.taken;
      }
  Step-Sends s _ (stop_sending o os e q c) h = record {
    todo = h.todo;
    sender = tt;
    jobs = h.jobs;
    workers = h.workers;
    results = h.results;
    taken = h.taken;
  }
  Step-Sends s _ (all_sent e q) h = record {
    todo = h.todo;
    sender = tt;
    jobs = h.jobs;
    workers = h.workers;
    results = h.results;
    taken = h.taken;
  }
  Step-Sends s _ (offer j e room) h =
      let sent : SenderSends (offering j) = subst SenderSends e h.sender in
      record {
        todo = h.todo;
        sender = tt;
        jobs = All-append (λ i. Among orders i.value) s.jobs (j ∷ []) h.jobs (sent, tt);
        workers = h.workers;
        results = h.results;
        taken = h.taken;
      }
  Step-Sends s _ (take_job j js before after q e c) h =
      let jobs : All (λ i. Among orders i.value) (j ∷ js) =
        subst (All (λ i. Among orders i.value)) q h.jobs in
      record {
        todo = h.todo;
        sender = h.sender;
        jobs = jobs.1;
        workers = workers-Sends before after idle (asking j) s.workers e h.workers jobs.0;
        results = h.results;
        taken = h.taken;
      }
  Step-Sends s _ (drop_job j js before after q e c) h =
      let jobs : All (λ i. Among orders i.value) (j ∷ js) =
        subst (All (λ i. Among orders i.value)) q h.jobs in
      record {
        todo = h.todo;
        sender = h.sender;
        jobs = jobs.1;
        workers = workers-Sends before after idle left s.workers e h.workers tt;
        results = h.results;
        taken = h.taken;
      }
  Step-Sends s _ (leave before after q c e) h = record {
    todo = h.todo;
    sender = h.sender;
    jobs = h.jobs;
    workers = workers-Sends before after idle left s.workers e h.workers tt;
    results = h.results;
    taken = h.taken;
  }
  Step-Sends s _ (answer j exchange res before after e r) h =
      let sent : Among orders j.value =
        worker-Sends before after (asking j) s.workers e h.workers in
      let reply : IsReply decode orders res = record {
        order = j.value;
        sent = sent;
        id = j.id;
        exchange = exchange;
        ran = r;
      } in
      record {
        todo = h.todo;
        sender = h.sender;
        jobs = h.jobs;
        workers = workers-Sends before after (asking j) (holding res) s.workers e h.workers reply;
        results = h.results;
        taken = h.taken;
      }
  Step-Sends s _ (abort j exchange before after e r c) h = record {
    todo = h.todo;
    sender = h.sender;
    jobs = h.jobs;
    workers = workers-Sends before after (asking j) left s.workers e h.workers tt;
    results = h.results;
    taken = h.taken;
  }
  Step-Sends s _ (deliver res before after e room) h =
      let reply : IsReply decode orders res =
        worker-Sends before after (holding res) s.workers e h.workers in
      record {
        todo = h.todo;
        sender = h.sender;
        jobs = h.jobs;
        workers = workers-Sends before after (holding res) idle s.workers e h.workers tt;
        results = All-append (IsReply decode orders) s.results (res ∷ []) h.results (reply, tt);
        taken = h.taken;
      }
  Step-Sends s _ (receive res rest c q d) h =
      let results : All (IsReply decode orders) (res ∷ rest) =
        subst (All (IsReply decode orders)) q h.results in
      record {
        todo = h.todo;
        sender = h.sender;
        jobs = h.jobs;
        workers = h.workers;
        results = results.1;
        taken = All-append (IsReply decode orders) s.taken (res ∷ []) h.taken (results.0, tt);
      }
  Step-Sends s _ (give_up res rest c q d) h =
      let results : All (IsReply decode orders) (res ∷ rest) =
        subst (All (IsReply decode orders)) q h.results in
      record {
        todo = h.todo;
        sender = h.sender;
        jobs = h.jobs;
        workers = h.workers;
        results = results.1;
        taken = h.taken;
      }
  Step-Sends s _ (return c q l) h = record {
    todo = h.todo;
    sender = h.sender;
    jobs = h.jobs;
    workers = h.workers;
    results = h.results;
    taken = h.taken;
  }

  idle_workers-Sends : (n : ℕ) → All WorkerSends (idle_workers n)
  idle_workers-Sends zero = tt
  idle_workers-Sends (suc n) = (tt, idle_workers-Sends n)

  Steps-Sends :
      (worker_count jid n : ℕ) (t : PoolState)
      → Steps decode (start_pool worker_count jid orders) n t
      → Sends t
  Steps-Sends worker_count jid _ _ none_yet = record {
    todo = All-Among orders;
    sender = tt;
    jobs = tt;
    workers = idle_workers-Sends worker_count;
    results = tt;
    taken = tt;
  }
  Steps-Sends worker_count jid _ _ (then_step {n} {t} {u} r st) =
      Step-Sends t u st (Steps-Sends worker_count jid n t r)

  pub Steps-AreReplies :
      (worker_count jid n : ℕ) (t : PoolState)
      → Steps decode (start_pool worker_count jid orders) n t
      → All (IsReply decode orders) t.taken
  Steps-AreReplies worker_count jid n t r = (Steps-Sends worker_count jid n t r).taken

-- A call of `SendOrdersToAccrual` that has returned no error.
pub record Finished (decode : Bytes → OrderAccrual × Bool) (worker_count jid : ℕ)
    (orders : List Order) : Type 0 where
  pub steps : ℕ
  pub last : PoolState
  pub ran : Steps decode (start_pool worker_count jid orders) steps last
  pub ended : last.collector ≡ returned

-- What the call delivers for each list of orders, by the way its goroutines were scheduled; `none`
-- where the context ends it.
abbrev pub delivered :
    {decode : Bytes → OrderAccrual × Bool} {worker_count jid : ℕ} {orders : List Order}
    → Option (Finished decode worker_count jid orders)
    → Option (List JobResult)
delivered none = none
delivered (some run) = some run.last.taken

pub delivered-AreReplies :
    (decode : Bytes → OrderAccrual × Bool) (worker_count jid : ℕ) (orders : List Order)
    (run : Option (Finished decode worker_count jid orders)) (results : List JobResult)
    → delivered run ≡ some results
    → All (IsReply decode orders) results
delivered-AreReplies decode k jid orders none results e = cc
delivered-AreReplies decode k jid orders (some run) results e =
    let same : run.last.taken ≡ results = cc in
    subst (All (IsReply decode orders)) same
      (Steps-AreReplies decode orders k jid run.steps run.last run.ran)
