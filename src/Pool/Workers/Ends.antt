-- ===== src/Pool/Workers/Ends.antt =====
-- The goroutines of the client pool come to an end, and none waits for another for ever.
use gomart.Prelude.{
  ℕ, zero, suc, ◌+◌, ◌*◌, ◌≤◌, ◌<◌, ◌≡◌, refl, ap, ◌⊎◌, inl, inr, Bool, true, false, Bool-cases,
  List, [], ◌∷◌, ◌++◌, Bytes, length, length-append, List-cases, All, arith,
}
use gomart.Store.{Order}
use gomart.Pool.{OrderAccrual, unreachable, Job, JobResult, run_job, new_p_get_req}
use gomart.Pool.Workers.{
  Sender, looping, closed, offering, Worker, idle, left, asking, holding, Collector, receiving,
  returned, gave_up, PoolState, idle_workers, start_pool, capacity, Step, cancel, new_job,
  stop_sending, all_sent, offer, take_job, drop_job, leave, answer, abort, deliver, receive,
  give_up, return, Steps, none_yet, then_step,
}

-- The steps that are left at most: those of each order and job, and the ends of the goroutines.
abbrev sender_work : Sender → ℕ
sender_work looping = 1
sender_work (offering j) = 6
sender_work closed = 0

abbrev worker_work : Worker → ℕ
worker_work idle = 1
worker_work (asking j) = 4
worker_work (holding res) = 3
worker_work left = 0

total_work : List Worker → ℕ
total_work [] = 0
total_work (w ∷ ws) = worker_work w + total_work ws

abbrev collector_work : Collector → ℕ
collector_work receiving = 1
collector_work returned = 0
collector_work gave_up = 0

abbrev context_work : Bool → ℕ
context_work true = 0
context_work false = 1

work : PoolState → ℕ
work s =
    length s.todo * 6
    + sender_work s.sender
    + length s.jobs * 4
    + total_work s.workers
    + length s.results
    + collector_work s.collector
    + context_work s.cancelled

total_work-middle :
    (before after : List Worker) (w : Worker)
    → total_work (before ++ w ∷ after) ≡ worker_work w + (total_work before + total_work after)
unfolding total_work
total_work-middle [] after w = omega arith
total_work-middle (v ∷ before) after w = omega (arith, total_work-middle before after w)

-- A worker takes another state.
total_work-changed :
    (before after : List Worker) (w w' : Worker) (ws : List Worker)
    → ws ≡ before ++ w ∷ after
    → total_work (before ++ w' ∷ after) + worker_work w ≡ total_work ws + worker_work w'
total_work-changed before after w w' ws e =
    rw e (omega (arith, total_work-middle before after w, total_work-middle before after w'))

module _ (decode : Bytes → OrderAccrual × Bool) where
  Step-work : (s t : PoolState) → Step decode s t → suc (work t) ≤ work s
  unfolding work
  Step-work s _ (cancel e) = rw e (omega arith)
  Step-work s _ (new_job o os e q c) = rw (e, q) (omega arith)
  Step-work s _ (stop_sending o os e q c) = rw e (omega arith)
  Step-work s _ (all_sent e q) = rw e (omega arith)
  Step-work s _ (offer j e room) = rw e (omega (arith, length-append s.jobs (j ∷ [])))
  Step-work s _ (take_job j js before after q e c) =
      rw q (omega (arith, total_work-changed before after idle (asking j) s.workers e))
  Step-work s _ (drop_job j js before after q e c) =
      rw q (omega (arith, total_work-changed before after idle left s.workers e))
  Step-work s _ (leave before after q c e) =
      omega (arith, total_work-changed before after idle left s.workers e)
  Step-work s _ (answer j exchange res before after e r) =
      omega (arith, total_work-changed before after (asking j) (holding res) s.workers e)
  Step-work s _ (abort j exchange before after e r c) =
      omega (arith, total_work-changed before after (asking j) left s.workers e)
  Step-work s _ (deliver res before after e room) = omega (
    arith,
    total_work-changed before after (holding res) idle s.workers e,
    length-append s.results (res ∷ []),
  )
  Step-work s _ (receive res rest c q d) = rw q (omega arith)
  Step-work s _ (give_up res rest c q d) = rw (q, c) (omega arith)
  Step-work s _ (return c q l) = rw c (omega arith)

  Steps-work : (s : PoolState) (n : ℕ) (t : PoolState) → Steps decode s n t → n + work t ≤ work s
  Steps-work s _ _ none_yet = omega arith
  Steps-work s _ _ (then_step {n} {t} {u} r st) =
      omega (arith, Steps-work s n t r, Step-work t u st)

total_work-idle : (n : ℕ) → total_work (idle_workers n) ≡ n
unfolding total_work
total_work-idle zero = refl
total_work-idle (suc n) = omega (arith, total_work-idle n)

-- Every worker has returned, or there is one that has not.
data Alive (ws : List Worker) : Type 0 where
  none_left : All (λ w. w ≡ left) ws → Alive ws
  some_idle : (before after : List Worker) → ws ≡ before ++ idle ∷ after → Alive ws
  some_asking : (j : Job) (before after : List Worker) → ws ≡ before ++ asking j ∷ after → Alive ws
  some_holding :
      (res : JobResult) (before after : List Worker) → ws ≡ before ++ holding res ∷ after → Alive ws

Alive-behind : (w : Worker) (ws : List Worker) → w ≡ left → Alive ws → Alive (w ∷ ws)
Alive-behind w ws l (none_left h) = none_left (l, h)
Alive-behind w ws l (some_idle before after e) = some_idle (w ∷ before) after (ap (λ v. w ∷ v) e)
Alive-behind w ws l (some_asking j before after e) =
    some_asking j (w ∷ before) after (ap (λ v. w ∷ v) e)
Alive-behind w ws l (some_holding res before after e) =
    some_holding res (w ∷ before) after (ap (λ v. w ∷ v) e)

Alive-cases : (ws : List Worker) → Alive ws
Alive-cases [] = none_left tt
Alive-cases (idle ∷ ws) = some_idle [] ws refl
Alive-cases (asking j ∷ ws) = some_asking j [] ws refl
Alive-cases (holding res ∷ ws) = some_holding res [] ws refl
Alive-cases (left ∷ ws) = Alive-behind left ws refl (Alive-cases ws)

Sender-cases : (s : Sender) → (s ≡ looping) ⊎ (s ≡ closed) ⊎ ((j : Job) × (s ≡ offering j))
Sender-cases looping = inl refl
Sender-cases closed = inr (inl refl)
Sender-cases (offering j) = inr (inr (j, refl))

capacity-pos :
    (s : PoolState) (before after : List Worker) (w : Worker)
    → s.workers ≡ before ++ w ∷ after
    → 0 < capacity s
capacity-pos s before after w e = rw e (omega (arith, length-append before (w ∷ after)))

module _ (decode : Bytes → OrderAccrual × Bool) where
  -- A goroutine can go on: a step that is not the end of the context.
  abbrev pub Moves : PoolState → Type 0
  Moves s = (t : PoolState) × Step decode s t × (t.cancelled ≡ s.cancelled)

  receive-Moves :
      (s : PoolState) (res : JobResult) (rest : List JobResult)
      → s.collector ≡ receiving
      → s.results ≡ res ∷ rest
      → Moves s
  receive-Moves s res rest c e = elim (Bool-cases s.cancelled) [
    | inl d ↦ (_, give_up res rest c e d, refl)
    | inr d ↦ (_, receive res rest c e d, refl)
  ]

  looping-Moves : (s : PoolState) → s.sender ≡ looping → Moves s
  looping-Moves s e = elim (List-cases s.todo) [
    | inl q ↦ (_, all_sent e q, refl)
    | inr (o, os, q) ↦ elim (Bool-cases s.cancelled) [
      | inl c ↦ (_, stop_sending o os e q c, refl)
      | inr c ↦ (_, new_job o os e q c, refl)
    ]
  ]

  idle-Moves :
      (s : PoolState) (before after : List Worker) → s.workers ≡ before ++ idle ∷ after → Moves s
  idle-Moves s before after e = elim (List-cases s.jobs) [
    | inr (j, js, q) ↦ elim (Bool-cases s.cancelled) [
      | inl c ↦ (_, drop_job j js before after q e c, refl)
      | inr c ↦ (_, take_job j js before after q e c, refl)
    ]
    | inl q ↦ elim (Sender-cases s.sender) [
      | inl l ↦ looping-Moves s l
      | inr (inl c) ↦ (_, leave before after q c e, refl)
      | inr (inr (j, o)) ↦ (_, offer j o (rw q (capacity-pos s before after idle e)), refl)
    ]
  ]

  holding-Moves :
      (s : PoolState) (res : JobResult) (before after : List Worker)
      → s.workers ≡ before ++ holding res ∷ after
      → s.results ≡ []
      → Moves s
  holding-Moves s res before after e q =
      (_, deliver res before after e (rw q (capacity-pos s before after (holding res) e)), refl)

  asking-Moves :
      (s : PoolState) (j : Job) (before after : List Worker)
      → s.workers ≡ before ++ asking j ∷ after
      → Moves s
  unfolding run_job new_p_get_req
  asking-Moves s j before after e = (_, answer j unreachable _ before after e refl, refl)

  receiving-Moves : (s : PoolState) → s.collector ≡ receiving → Moves s
  receiving-Moves s c = elim (List-cases s.results) [
    | inr (res, rest, e) ↦ receive-Moves s res rest c e
    | inl e ↦ elim (Alive-cases s.workers) [
      | none_left h ↦ (_, return c e h, refl)
      | some_idle before after q ↦ idle-Moves s before after q
      | some_asking j before after q ↦ asking-Moves s j before after q
      | some_holding res before after q ↦ holding-Moves s res before after q e
    ]
  ]

  Collector-cases : (c : Collector) → (c ≡ returned) ⊎ (c ≡ gave_up) ⊎ (c ≡ receiving)
  Collector-cases returned = inl refl
  Collector-cases gave_up = inr (inl refl)
  Collector-cases receiving = inr (inr refl)

  -- Whatever the order in which the goroutines are scheduled, they take at most six steps for each
  -- order, one for each worker and three more, whether or not the context ends; and at any time the
  -- call of `SendOrdersToAccrual` has returned its results or the error of the context, or one of the
  -- goroutines can go on, by a step that is not the end of the context. A worker that waits for the
  -- accrual system counts as one that can go on, since its request can fail.
  pub Steps-finite :
      (worker_count jid : ℕ) (orders : List Order) (n : ℕ) (s : PoolState)
      → Steps decode (start_pool worker_count jid orders) n s
      → (n ≤ length orders * 6 + worker_count + 3)
        × ((s.collector ≡ returned) ⊎ (s.collector ≡ gave_up) ⊎ Moves s)
  unfolding work
  Steps-finite worker_count jid orders n s r = (
    omega (
      arith,
      Steps-work decode (start_pool worker_count jid orders) n s r,
      total_work-idle worker_count,
    ),
    elim (Collector-cases s.collector) [
      | inl over ↦ inl over
      | inr (inl over) ↦ inr (inl over)
      | inr (inr goes_on) ↦ inr (inr (receiving-Moves s goes_on))
    ],
  )
