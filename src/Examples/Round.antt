-- ===== src/Examples/Round.antt =====
-- A round of the accrual client on the sample tables.
use gomart.Prelude.{
  ◌≡◌, refl, Bool, true, Option, none, some, List, [], ◌∷◌, Bytes, codes, All, arith,
}
use gomart.Prelude.Int.{pos, ◌+ℤ◌}
use gomart.Store.{of_cents, Order}
use gomart.Tables.{parse_status}
use gomart.Ledger.{total_accrual, total_sum}
use gomart.Ledger.Sound.{IsSound}
use gomart.Pool.{OrderAccrual, JobResult, answered, read_response, new_p_get_req, run_job}
use gomart.Accrual.{main_accrual_round}
use gomart.Accrual.Answers.{IsHonest}
use gomart.Pool.Workers.Replies.{first, IsReply}
use gomart.Accrual.Cycle.{main_accrual_round-IsSound}
use gomart.Examples.{tables, world}

-- 7.25 points for every order.
abbrev pub decode : Bytes → OrderAccrual × Bool
decode body = (record { order_id = body; status = "PROCESSED"; accrual = of_cents (pos 725) }, true)

pub decode-IsHonest : IsHonest decode
unfolding parse_status
decode-IsHonest = record { gains = λ body. omega arith; no_advance = λ body s p o. ground arith }

-- A worker's result for the first order; the context is cancelled before the others.
abbrev pub reply : Order → JobResult
reply o = record {
  id = 1;
  result = 200;
  wait_sec = pos 0;
  value = record o { accrual = of_cents (pos 725); status = "PROCESSED" };
  err = none;
}

abbrev pub pool : List Order → Option (List JobResult)
pool [] = none
pool (o ∷ os) = some (reply o ∷ [])

reply-IsReply : (o : Order) (os : List Order) → IsReply decode (o ∷ os) (reply o)
unfolding run_job new_p_get_req read_response
reply-IsReply o os = record {
  order = o;
  sent = first;
  id = 1;
  exchange = answered 200 [] (codes "{}");
  ran = refl;
}

pub pool-AreReplies :
    (orders : List Order) (results : List JobResult)
    → pool orders ≡ some results
    → All (IsReply decode orders) results
pool-AreReplies [] results e = absurd (ground arith)
pool-AreReplies (o ∷ os) results e =
    let same : reply o ∷ [] ≡ results = cc in rw (← same) (reply-IsReply o os, tt)

pub tables-IsSound : IsSound tables
unfolding total_accrual total_sum ◌+ℤ◌
tables-IsSound = record {
  books = record {
    spent = λ id. ground arith;
    earned = λ id. ground arith;
    covered = λ id. ground arith;
  };
  keyed = (((λ e. omega (arith, e)), tt), (tt, tt));
  unpaid = ((λ e. ground (arith, e)), ((λ e. refl), tt));
}

main_accrual_round-IsSound_example : IsSound (main_accrual_round pool world).world.tables
main_accrual_round-IsSound_example =
    main_accrual_round-IsSound decode decode-IsHonest pool world pool-AreReplies tables-IsSound
