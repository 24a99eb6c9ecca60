-- ===== src/Pool.antt =====
-- The HTTP client pool, internal/common/httpclientpool: one request to the accrual system and what
-- a worker makes of the answer.
pub mod Workers
use gomart.Prelude.{
  ℕ, ◌+◌, ◌-◌, ◌*◌, ◌^◌, String, Bool, true, false, ◌||◌, not, Option, none, some, [], ◌∷◌, Bytes,
  is_empty, ltb, leb, ◌==◌, if◌then◌else◌, Result, ok, err,
}
use gomart.Prelude.Int.{ℤ, pos, ◌-ℤ◌}
use gomart.Store.{Decimal, zero_decimal, Order}

abbrev pub http_retry_code : ℕ
http_retry_code = 429

abbrev pub http_success_code : ℕ
http_success_code = 200

-- internal/common/models/models.go
pub record OrderAccrual : Type 0 where
  pub order_id : Bytes
  pub status : String
  pub accrual : Decimal

-- What `client.Do` returns: an error, that of a cancelled context set apart, or an answer.
pub data Exchange : Type 0 where
  unreachable cancelled : Exchange
  answered : (status : ℕ) (retry_after body : Bytes) → Exchange

pub data RequestError : Type 0 where
  request_failed request_cancelled : RequestError

pub record ResulAccrual : Type 0 where
  pub status : ℕ
  pub wait_time : ℤ
  pub value : OrderAccrual
  pub decode_failed : Bool

-- internal/common/httpclientpool/job/job.go
pub record Job : Type 0 where
  pub id : ℕ
  pub value : Order

pub record JobResult : Type 0 where
  pub id : ℕ
  pub result : ℕ
  pub wait_sec : ℤ
  pub value : Order
  pub err : Option RequestError

-- A number that does not fit 64 bits ends the reading at once, as 2^64.
abbrev digits_from : Bytes → ℕ → Option ℕ
digits_from [] n = some n
digits_from (c ∷ s) n =
    let m = n * 10 + (c - b'0') in
    let rest = digits_from s m in
    if ltb c b'0' || ltb b'9' c then none else if leb (2 ^ 64) m then some (2 ^ 64) else rest

abbrev magnitude : Bytes → Option ℕ
magnitude [] = none
magnitude (c ∷ s) = digits_from (c ∷ s) 0

abbrev to_int : Bool → Option ℕ → ℤ
to_int negative none = pos 0
to_int true (some n) = pos 0 -ℤ pos (if ltb (2 ^ 63) n then 2 ^ 63 else n)
to_int false (some n) = pos (if leb (2 ^ 63) n then 2 ^ 63 - 1 else n)

-- `n, _ := strconv.Atoi(s)`: 0 for a text that is no number, the nearest integer for one that does
-- not fit 64 bits.
unfoldable pub atoi : Bytes → ℤ
atoi [] = pos 0
atoi (c ∷ s) =
    if c == b'-'
    then to_int true (magnitude s)
    else if c == b'+'
    then to_int false (magnitude s)
    else to_int false (magnitude (c ∷ s))

abbrev no_value : OrderAccrual
no_value = record { order_id = []; status = ""; accrual = zero_decimal }

-- `decode` is `OrderAccrual.FromJSON` on a body: the fields that it has filled in, and whether it
-- returned no error.
module _ (decode : Bytes → OrderAccrual × Bool) where
  -- What `newPGetReq` reads from an answer.
  unfoldable pub read_response : ℕ → Bytes → Bytes → ResulAccrual
  read_response status retry_after body =
      if status == http_retry_code
      then record {
        status = status;
        wait_time = if is_empty retry_after then pos 0 else atoi retry_after;
        value = no_value;
        decode_failed = false;
      }
      else if status == http_success_code
      then record {
        status = status;
        wait_time = pos 0;
        value = (decode body).0;
        decode_failed = not (decode body).1;
      }
      else record { status = status; wait_time = pos 0; value = no_value; decode_failed = false }

  unfoldable pub new_p_get_req : Exchange → Result RequestError ResulAccrual
  new_p_get_req unreachable = err request_failed
  new_p_get_req cancelled = err request_cancelled
  new_p_get_req (answered status retry_after body) = ok (read_response status retry_after body)

  -- One round of `workerPlain`; `none` where the worker returns.
  unfoldable pub run_job : Job → Exchange → Option JobResult
  run_job j exchange = elim (new_p_get_req exchange) [
    | err request_cancelled ↦ none
    | err request_failed ↦ some (record {
      id = j.id;
      result = 0;
      wait_sec = pos 0;
      value = j.value;
      err = some request_failed;
    })
    | ok r ↦ some (record {
      id = j.id;
      result = r.status;
      wait_sec = r.wait_time;
      value = record j.value { accrual = r.value.accrual; status = r.value.status };
      err = none;
    })
  ]
