-- ===== src/Faccrual.antt =====
-- The stand-in for the accrual system, cmd/faccrual/faccrual.go.
pub mod Client
use gomart.Prelude.{
  ℕ, ◌*◌, ◌≡◌, String, Bool, true, Option, none, some, [], ◌∷◌, Bytes, ◌==◌, if◌then◌else◌,
}
use gomart.Prelude.Int.{pos}
use gomart.Store.{of_cents}
use gomart.Handlers.{Response}
use gomart.Pool

-- The points are a float64, of which only whole numbers occur.
pub record OrderAccrual : Type 0 where
  pub order_id : Bytes
  pub status : String
  pub accrual : ℕ

-- `encoding/json` on the two sides: `encode` writes the answer, and `decode` is `OrderAccrual.FromJSON`
-- of internal/common/models/models.go, which reads a status and a number as they were written, and 0
-- for a number that `omitempty` has left out.
pub record Json : Type 0 where
  pub encode : OrderAccrual → Option Bytes
  pub decode : Bytes → Pool.OrderAccrual × Bool
  pub decode-encode :
      (o : OrderAccrual) (body : Bytes)
      → encode o ≡ some body
      → ((decode body).0.status ≡ o.status)
        × ((decode body).0.accrual ≡ of_cents (pos (o.accrual * 100)))
        × ((decode body).1 ≡ true)

-- `switch id[:1]`
unfoldable pub new_order_accrual : ℕ → Bytes → OrderAccrual
new_order_accrual first id =
    if first == b'1'
    then record { order_id = id; status = "INVALID"; accrual = 0 }
    else record { order_id = id; status = "PROCESSED"; accrual = 700 }

abbrev pub answer_with : Option Bytes → Response
answer_with none = record {
  status = 500;
  content_type = some "application/json";
  cookie = none;
  body = [];
}
answer_with (some buf) = record {
  status = 200;
  content_type = some "application/json";
  cookie = none;
  body = buf;
}

-- `none` where `id[:1]` panics.
unfoldable pub handle_http : Json → Bytes → Option Response
handle_http json [] = none
handle_http json (c ∷ id) = some (answer_with (json.encode (new_order_accrual c (c ∷ id))))
