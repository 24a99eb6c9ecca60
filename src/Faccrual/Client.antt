-- ===== src/Faccrual/Client.antt =====
-- A worker of internal/common/httpclientpool that asks the stand-in for its job's order.
use gomart.Prelude.{
  ℕ, ◌*◌, ◌≡◌, refl, ◌⊎◌, inl, inr, false, Bool-cases, Option, none, some, [], ◌∷◌, Bytes, is_empty,
  ◌==◌, arith,
}
use gomart.Prelude.Int.{pos, ◌≤ℤ◌}
use gomart.Store.{Order, of_cents}
use gomart.Uint.{format_uint}
use gomart.Uint.RoundTrip.{format_uint-is_empty}
use gomart.Tables.{parse_status, is_open}
use gomart.Tables.Rows.{OrderStatus, invalid, processed}
use gomart.Handlers.{Response}
use gomart.Pool.{
  Exchange, unreachable, answered, Job, JobResult, new_p_get_req, read_response, run_job,
}
use gomart.Faccrual.{Json, new_order_accrual, answer_with, handle_http}

-- What the client sees of a response without a header `Retry-After`; `net/http` closes the connection
-- of a handler that panics.
abbrev pub exchange_of : Option Response → Exchange
exchange_of none = unreachable
exchange_of (some res) = answered res.status [] res.body

first-cases : (s : Bytes) → is_empty s ≡ false → (c : ℕ) × (t : Bytes) × (s ≡ c ∷ t)
first-cases [] e = absurd (ground arith)
first-cases (c ∷ t) e = (c, t, refl)

-- The status and the points of an answer close the order.
pub record IsClosing (o : Order) : Type 0 where
  pub status : OrderStatus
  pub parsed : parse_status o.status ≡ some status
  pub shut : is_open status ≡ false
  pub gains : pos 0 ≤ℤ o.accrual.cents

new_order_accrual-IsClosing :
    (c : ℕ) (id : Bytes) (o : Order)
    → IsClosing (record o {
      accrual = of_cents (pos ((new_order_accrual c id).accrual * 100));
      status = (new_order_accrual c id).status;
    })
unfolding new_order_accrual parse_status
new_order_accrual-IsClosing c id o = elim (Bool-cases (c == b'1')) [
  | inl one ↦ rw one (record { status = invalid; parsed = refl; shut = refl; gains = omega arith })
  | inr other ↦
      rw other (record { status = processed; parsed = refl; shut = refl; gains = omega arith })
]

module _ (json : Json) (j : Job) where
  abbrev pub asked : Option Response
  asked = handle_http json (format_uint j.value.order_id)

  abbrev pub Served : JobResult → Type 0
  Served res =
      (res.err ≡ none)
      × (res.id ≡ j.id)
      × (res.value.order_id ≡ j.value.order_id)
      × (((res.result ≡ 200) × IsClosing res.value) ⊎ (res.result ≡ 500))

  answered-Served :
      (c : ℕ) (id : Bytes) (buf : Option Bytes)
      → json.encode (new_order_accrual c id) ≡ buf
      → (res : JobResult) × (run_job json.decode j (exchange_of (some (answer_with buf)))
          ≡ some res)
        × Served res
  unfolding run_job new_p_get_req read_response
  answered-Served c id none e = (_, refl, (refl, refl, refl, inr refl))
  answered-Served c id (some body) e =
      let (status, accrual, read) = json.decode-encode (new_order_accrual c id) body e in
      (
        _,
        refl,
        (
          refl,
          refl,
          refl,
          inl (refl, rw (status, accrual) (new_order_accrual-IsClosing c id j.value)),
        ),
      )

  -- A worker that asks the stand-in for the order of its job has an answer without an error: with status
  -- 200 and values that close the order and are not negative, or with status 500 where they could not be
  -- encoded.
  pub run_job-handle_http :
      (res : JobResult) × (run_job json.decode j (exchange_of asked) ≡ some res) × Served res
  unfolding handle_http
  run_job-handle_http =
      let (c, t, text) =
        first-cases (format_uint j.value.order_id) (format_uint-is_empty j.value.order_id) in
      rw text (answered-Served c (c ∷ t) (json.encode (new_order_accrual c (c ∷ t))) refl)
