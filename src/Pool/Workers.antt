-- ===== src/Pool/Workers.antt =====
-- `SendOrdersToAccrual` and `sendRun` of internal/gophermart/service/service.go with `StartPool` and
-- `workerPlain` of internal/common/httpclientpool/httpclientpool.go: goroutines over two channels.
pub mod Ends
pub mod Replies
pub mod Counts
pub mod Complete
pub mod Unstaffed
use gomart.Prelude.{
  ℕ, zero, suc, ◌+◌, ◌*◌, ◌%◌, ◌^◌, ◌<◌, ◌≡◌, Bool, true, false, Option, none, some, List, [], ◌∷◌,
  ◌++◌, Bytes, length, All,
}
use gomart.Store.{Order}
use gomart.Pool.{OrderAccrual, Exchange, Job, JobResult, run_job}

-- `sendRun`: about to look at the context, blocked on `jobs <- …`, or returned, the channel closed.
pub data Sender : Type 0 where
  looping closed : Sender
  offering : Job → Sender

-- A worker waits for a job, waits for the answer to one, is blocked on `results <- res`, or has
-- returned.
pub data Worker : Type 0 where
  idle left : Worker
  asking : Job → Worker
  holding : JobResult → Worker

-- The loop over `results`: it goes on, has come to the end of the closed channel, or has returned the
-- error of the context.
pub data Collector : Type 0 where
  receiving returned gave_up : Collector

-- `taken` is what the loop over `results` has received, in that order.
pub record PoolState : Type 0 where
  pub todo : List Order
  pub jid : ℕ
  pub sender : Sender
  pub jobs : List Job
  pub workers : List Worker
  pub results : List JobResult
  pub collector : Collector
  pub taken : List JobResult
  pub cancelled : Bool

abbrev pub idle_workers : ℕ → List Worker
idle_workers zero = []
idle_workers (suc n) = idle ∷ idle_workers n

abbrev pub start_pool : ℕ → ℕ → List Order → PoolState
start_pool worker_count jid orders = record {
  todo = orders;
  jid = jid;
  sender = looping;
  jobs = [];
  workers = idle_workers worker_count;
  results = [];
  collector = receiving;
  taken = [];
  cancelled = false;
}

-- The capacity of both channels.
abbrev pub capacity : PoolState → ℕ
capacity s = length s.workers * 2

module _ (decode : Bytes → OrderAccrual × Bool) where
  -- One step of one of the goroutines, or the end of the context. A request ends as cancelled only
  -- if the context is.
  pub data Step (s : PoolState) : PoolState → Type 0 where
    cancel : s.cancelled ≡ false → Step s (record s { cancelled = true })
    new_job :
        (o : Order) (os : List Order)
        → s.sender ≡ looping
        → s.todo ≡ o ∷ os
        → s.cancelled ≡ false
        → Step s (record s {
          todo = os;
          jid = (s.jid + 1) % 2 ^ 64;
          sender = offering (record { id = (s.jid + 1) % 2 ^ 64; value = o });
        })
    stop_sending :
        (o : Order) (os : List Order)
        → s.sender ≡ looping
        → s.todo ≡ o ∷ os
        → s.cancelled ≡ true
        → Step s (record s { sender = closed })
    all_sent : s.sender ≡ looping → s.todo ≡ [] → Step s (record s { sender = closed })
    offer :
        (j : Job)
        → s.sender ≡ offering j
        → length s.jobs < capacity s
        → Step s (record s { sender = looping; jobs = s.jobs ++ j ∷ [] })
    take_job :
        (j : Job) (js : List Job) (before after : List Worker)
        → s.jobs ≡ j ∷ js
        → s.workers ≡ before ++ idle ∷ after
        → s.cancelled ≡ false
        → Step s (record s { jobs = js; workers = before ++ asking j ∷ after })
    drop_job :
        (j : Job) (js : List Job) (before after : List Worker)
        → s.jobs ≡ j ∷ js
        → s.workers ≡ before ++ idle ∷ after
        → s.cancelled ≡ true
        → Step s (record s { jobs = js; workers = before ++ left ∷ after })
    leave :
        (before after : List Worker)
        → s.jobs ≡ []
        → s.sender ≡ closed
        → s.workers ≡ before ++ idle ∷ after
        → Step s (record s { workers = before ++ left ∷ after })
    answer :
        (j : Job) (exchange : Exchange) (res : JobResult) (before after : List Worker)
        → s.workers ≡ before ++ asking j ∷ after
        → run_job decode j exchange ≡ some res
        → Step s (record s { workers = before ++ holding res ∷ after })
    abort :
        (j : Job) (exchange : Exchange) (before after : List Worker)
        → s.workers ≡ before ++ asking j ∷ after
        → run_job decode j exchange ≡ none
        → s.cancelled ≡ true
        → Step s (record s { workers = before ++ left ∷ after })
    deliver :
        (res : JobResult) (before after : List Worker)
        → s.workers ≡ before ++ holding res ∷ after
        → length s.results < capacity s
        → Step s (record s { workers = before ++ idle ∷ after; results = s.results ++ res ∷ [] })
    receive :
        (res : JobResult) (rest : List JobResult)
        → s.collector ≡ receiving
        → s.results ≡ res ∷ rest
        → s.cancelled ≡ false
        → Step s (record s { results = rest; taken = s.taken ++ res ∷ [] })
    give_up :
        (res : JobResult) (rest : List JobResult)
        → s.collector ≡ receiving
        → s.results ≡ res ∷ rest
        → s.cancelled ≡ true
        → Step s (record s { results = rest; collector = gave_up })
    return :
        s.collector ≡ receiving
        → s.results ≡ []
        → All (λ w. w ≡ left) s.workers
        → Step s (record s { collector = returned })

  -- `n` steps from one state to another.
  pub data Steps (s : PoolState) : ℕ → PoolState → Type 0 where
    none_yet : Steps s zero s
    then_step : {n : ℕ} {t u : PoolState} → Steps s n t → Step t u → Steps s (suc n) u
