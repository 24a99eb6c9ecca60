-- ===== src/Pool/Workers/Unstaffed.antt =====
-- `SendOrdersToAccrual` of internal/gophermart/service/service.go with a client pool of no workers, as
-- the rate limit 0 makes it.
use gomart.Prelude.{
  ℕ, ◌+◌, ◌%◌, ◌^◌, false, ◌≡◌, ◌≢◌, refl, sym, ◌∙◌, List, [], ◌∷◌, ◌++◌, Bytes, Bool, arith,
}
use gomart.Store.{Order}
use gomart.Pool.{OrderAccrual, Job}
use gomart.Pool.Workers.{
  offering, Worker, idle, asking, holding, returned, PoolState, start_pool, Step, cancel, new_job,
  stop_sending, all_sent, offer, take_job, drop_job, leave, answer, abort, deliver, receive,
  give_up, return, Steps, none_yet, then_step,
}

-- Both channels are empty, and nothing has been received.
record IsUnstaffed (s : PoolState) : Type 0 where
  workers : s.workers ≡ []
  jobs : s.jobs ≡ []
  results : s.results ≡ []
  taken : s.taken ≡ []

IsUnstaffed-same :
    (s t : PoolState)
    → IsUnstaffed s
    → t.workers ≡ s.workers
    → t.jobs ≡ s.jobs
    → t.results ≡ s.results
    → t.taken ≡ s.taken
    → IsUnstaffed t
IsUnstaffed-same s t h w j r k = record {
  workers = w ∙ h.workers;
  jobs = j ∙ h.jobs;
  results = r ∙ h.results;
  taken = k ∙ h.taken;
}

no_worker : (w : Worker) (before after : List Worker) → before ++ w ∷ after ≢ []
no_worker w [] after e = absurd (ground (arith, e))
no_worker w (b ∷ before) after e = absurd (ground (arith, e))

-- The first order is offered, and the round has returned.
abbrev pub unsent : ℕ → Order → List Order → PoolState
unsent jid o os = record {
  todo = os;
  jid = (jid + 1) % 2 ^ 64;
  sender = offering (record { id = (jid + 1) % 2 ^ 64; value = o });
  jobs = [];
  workers = [];
  results = [];
  collector = returned;
  taken = [];
  cancelled = false;
}

module _ (decode : Bytes → OrderAccrual × Bool) where
  -- What a step of the goroutines leaves, and that a sender that offers a job goes on offering it.
  Step-IsUnstaffed :
      (s t : PoolState)
      → Step decode s t
      → IsUnstaffed s
      → IsUnstaffed t × ((j : Job) → s.sender ≡ offering j → t.sender ≡ offering j)
  Step-IsUnstaffed s _ (cancel e) h = (IsUnstaffed-same s _ h refl refl refl refl, λ j k. k)
  Step-IsUnstaffed s _ (new_job o os e k c) h =
      (IsUnstaffed-same s _ h refl refl refl refl, λ j' k'. absurd (ground (arith, e, k')))
  Step-IsUnstaffed s _ (stop_sending o os e k c) h =
      (IsUnstaffed-same s _ h refl refl refl refl, λ j' k'. absurd (ground (arith, e, k')))
  Step-IsUnstaffed s _ (all_sent e k) h =
      (IsUnstaffed-same s _ h refl refl refl refl, λ j' k'. absurd (ground (arith, e, k')))
  Step-IsUnstaffed s _ (offer j e k) h =
      absurd (let room = rw h.workers at k in ground (arith, room))
  Step-IsUnstaffed s _ (take_job j js before after e w c) h =
      absurd (no_worker idle before after (sym w ∙ h.workers))
  Step-IsUnstaffed s _ (drop_job j js before after e w c) h =
      absurd (no_worker idle before after (sym w ∙ h.workers))
  Step-IsUnstaffed s _ (leave before after e k w) h =
      absurd (no_worker idle before after (sym w ∙ h.workers))
  Step-IsUnstaffed s _ (answer j x res before after w r) h =
      absurd (no_worker (asking j) before after (sym w ∙ h.workers))
  Step-IsUnstaffed s _ (abort j x before after w r c) h =
      absurd (no_worker (asking j) before after (sym w ∙ h.workers))
  Step-IsUnstaffed s _ (deliver res before after w k) h =
      absurd (no_worker (holding res) before after (sym w ∙ h.workers))
  Step-IsUnstaffed s _ (receive res rest c e k) h =
      absurd (let none_such = sym e ∙ h.results in ground (arith, none_such))
  Step-IsUnstaffed s _ (give_up res rest c e k) h =
      absurd (let none_such = sym e ∙ h.results in ground (arith, none_such))
  Step-IsUnstaffed s _ (return c e w) h = (IsUnstaffed-same s _ h refl refl refl refl, λ j k. k)

  Steps-IsUnstaffed :
      (s : PoolState) (n : ℕ) (t : PoolState) (j : Job)
      → Steps decode s n t
      → IsUnstaffed s
      → s.sender ≡ offering j
      → IsUnstaffed t × (t.sender ≡ offering j)
  Steps-IsUnstaffed s _ _ j none_yet h o = (h, o)
  Steps-IsUnstaffed s _ _ j (then_step {n} {t} {u} r m) h o =
      let (h', o') = Steps-IsUnstaffed s n t j r h o in
      let (h'', goes_on) = Step-IsUnstaffed t u m h' in (h'', goes_on j o')

  -- With no workers, where there is an order to send, `SendOrdersToAccrual` can return without a result
  -- after two steps, and from then on, whatever the goroutines do and also when the context is
  -- cancelled, the one that sends offers the first order for ever, and never ends.
  pub Steps-unsent :
      (jid : ℕ) (o : Order) (os : List Order) (n : ℕ) (t : PoolState)
      → Steps decode (unsent jid o os) n t
      → Steps decode (start_pool 0 jid (o ∷ os)) 2 (unsent jid o os)
        × (t.sender ≡ (unsent jid o os).sender)
        × (t.taken ≡ [])
  Steps-unsent jid o os n t r =
      let (h, stuck) =
        Steps-IsUnstaffed (unsent jid o os) n t _ r
          (record { workers = refl; jobs = refl; results = refl; taken = refl }) refl in
      (
        then_step (then_step none_yet (new_job o os refl refl refl)) (return refl refl tt),
        stuck,
        h.taken,
      )
