-- ===== src/Examples/Workers.antt =====
-- One schedule of the goroutines of the client pool.
use gomart.Prelude.{◌+◌, ◌*◌, ◌≤◌, ◌⊎◌, ◌≡◌, refl, false, true, [], ◌∷◌, codes, length, arith}
use gomart.Prelude.Int.{pos}
use gomart.Store.{of_cents, Order}
use gomart.Pool.{Job, answered, run_job, new_p_get_req, read_response}
use gomart.Pool.Workers.{
  closed, left, looping, asking, gave_up, receiving, returned, PoolState, new_job, offer, take_job,
  answer, all_sent, deliver, receive, leave, return, none_yet, then_step, Steps, start_pool, cancel,
}
use gomart.Pool.Workers.Unstaffed.{unsent, Steps-unsent}
use gomart.Pool.Workers.Ends.{Moves, Steps-finite}
use gomart.Pool.Workers.Replies.{Finished}
use gomart.Pool.Workers.Counts.{count_results, count_orders}
use gomart.Pool.Workers.Complete.{Steps-complete}
use gomart.Examples.Round.{decode, reply}

abbrev pub open_order : Order
open_order = record {
  order_id = 12345678903;
  user_id = 1;
  status = "NEW";
  accrual = of_cents (pos 0);
  time_u = 5;
  time_c = 5;
}

abbrev pub ended_state : Order → PoolState
ended_state o = record {
  todo = [];
  jid = 1;
  sender = closed;
  jobs = [];
  workers = left ∷ [];
  results = [];
  collector = returned;
  taken = reply o ∷ [];
  cancelled = false;
}

-- One worker asks for one order.
unfoldable pub scheduled : (o : Order) → Finished decode 1 0 (o ∷ [])
unfolding run_job new_p_get_req read_response
scheduled o =
    let j : Job = record { id = 1; value = o } in
    let res = reply o in
    record {
      steps = 9;
      last = ended_state o;
      ran =
          then_step
            (then_step
              (then_step
                (then_step
                  (then_step
                    (then_step
                      (then_step
                        (then_step (then_step none_yet (new_job o [] refl refl refl))
                          (offer j refl (omega arith)))
                        (take_job j [] [] [] refl refl refl))
                      (answer j (answered 200 [] (codes "{}")) res [] [] refl refl))
                    (all_sent refl refl))
                  (deliver res [] [] refl (omega arith)))
                (receive res [] refl refl refl))
              (leave [] [] refl refl refl))
            (return refl refl (refl, tt));
      ended = refl;
    }

-- The worker waits for the accrual system.
abbrev waiting : PoolState
waiting = record {
  todo = [];
  jid = 1;
  sender = looping;
  jobs = [];
  workers = asking (record { id = 1; value = open_order }) ∷ [];
  results = [];
  collector = receiving;
  taken = [];
  cancelled = false;
}

waits : Steps decode (start_pool 1 0 (open_order ∷ [])) 3 waiting
waits =
    then_step
      (then_step (then_step none_yet (new_job open_order [] refl refl refl))
        (offer (record { id = 1; value = open_order }) refl (omega arith)))
      (take_job (record { id = 1; value = open_order }) [] [] [] refl refl refl)

Steps-finite_example :
    (3 ≤ length (open_order ∷ []) * 6 + 1 + 3)
    × ((waiting.collector ≡ returned) ⊎ (waiting.collector ≡ gave_up) ⊎ Moves decode waiting)
Steps-finite_example = Steps-finite decode 1 0 (open_order ∷ []) 3 waiting waits

Steps-complete_example :
    count_results 12345678903 (scheduled open_order).last.taken
    ≡ count_orders 12345678903 (open_order ∷ [])
unfolding scheduled
Steps-complete_example =
    Steps-complete decode 1 0 (open_order ∷ []) 9 (scheduled open_order).last 12345678903
      (omega arith) (scheduled open_order).ran refl refl

-- No workers, and the context is cancelled.
abbrev abandoned : PoolState
abandoned = record (unsent 0 open_order []) { cancelled = true }

Steps-unsent_example :
    Steps decode (start_pool 0 0 (open_order ∷ [])) 2 (unsent 0 open_order [])
    × (abandoned.sender ≡ (unsent 0 open_order []).sender)
    × (abandoned.taken ≡ [])
Steps-unsent_example =
    Steps-unsent decode 0 open_order [] 1 abandoned (then_step none_yet (cancel refl))
