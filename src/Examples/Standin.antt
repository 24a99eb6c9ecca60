-- ===== src/Examples/Standin.antt =====
-- The order that is open, asked for at the stand-in for the accrual system.
use gomart.Prelude.{
  ℕ, ◌*◌, ◌≡◌, refl, true, false, Bool, Bool-cases, inl, inr, Option, none, some, [], ◌∷◌, Bytes,
  String, str_eq, eq_iff, ◌==◌, sym, if◌then◌else◌, arith,
}
use gomart.Prelude.Int.{pos}
use gomart.Store.{of_cents}
use gomart.Pool
use gomart.Pool.{Job, JobResult, run_job}
use gomart.Faccrual.{OrderAccrual, Json}
use gomart.Faccrual.Client.{exchange_of, asked, Served, run_job-handle_http}
use gomart.Examples.Workers.{open_order}

-- The status and the points are the first two bytes.
abbrev encode : OrderAccrual → Option Bytes
encode o =
    if str_eq o.status "INVALID"
    then some (0 ∷ o.accrual ∷ o.order_id)
    else if str_eq o.status "PROCESSED"
    then some (1 ∷ o.accrual ∷ o.order_id)
    else none

abbrev status_of : ℕ → String
status_of tag = if tag == 0 then "INVALID" else "PROCESSED"

abbrev decode : Bytes → Pool.OrderAccrual × Bool
decode (tag ∷ n ∷ id) =
    (record { order_id = id; status = status_of tag; accrual = of_cents (pos (n * 100)) }, true)
decode _ = (record { order_id = []; status = ""; accrual = of_cents (pos 0) }, false)

abbrev Reads : OrderAccrual → Bytes → Type 0
Reads o body =
    ((decode body).0.status ≡ o.status)
    × ((decode body).0.accrual ≡ of_cents (pos (o.accrual * 100)))
    × ((decode body).1 ≡ true)

tagged-Reads :
    (o : OrderAccrual) (body : Bytes) (tag : ℕ)
    → status_of tag ≡ o.status
    → (tag ∷ o.accrual ∷ o.order_id) ≡ body
    → Reads o body
tagged-Reads o body tag known e = rw (← e) (known, refl, refl)

decode-encode_lem : (o : OrderAccrual) (body : Bytes) → encode o ≡ some body → Reads o body
decode-encode_lem o body e = elim (Bool-cases (str_eq o.status "INVALID")) [
  | inl i ↦ tagged-Reads o body 0 (sym ((eq_iff _ _).0 i)) (ground (arith, e))
  | inr n ↦ elim (Bool-cases (str_eq o.status "PROCESSED")) [
    | inl p ↦ tagged-Reads o body 1 (sym ((eq_iff _ _).0 p)) (ground (arith, e))
    | inr q ↦ absurd (ground (arith, e))
  ]
]

json : Json
json = record { encode = encode; decode = decode; decode-encode = decode-encode_lem }

job : Job
job = record { id = 7; value = open_order }

run_job-handle_http_example :
    (res : JobResult) × (run_job json.decode job (exchange_of (asked json job)) ≡ some res)
    × Served json job res
run_job-handle_http_example = run_job-handle_http json job
