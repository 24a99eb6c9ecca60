-- ===== src/Uint.antt =====
-- `strconv.ParseUint(s, 10, 64)` and `strconv.FormatUint(n, 10)`, as the Go library documents them:
-- user numbers and order numbers pass through them as text in internal/gophermart/service/service.go
-- and internal/common/httpclientpool/httpclientpool.go.
pub mod RoundTrip
use mathlib.Core.WellFounded.{Acc}
use mathlib.Core.Logic.{dite}
use gomart.Prelude.{
  ℕ, ◌+◌, ◌*◌, ◌-◌, ◌/◌, ◌%◌, ◌^◌, ◌<◌, Bool, ◌||◌, Option, none, some, [], ◌∷◌, Bytes, ltb, leb,
  ◌==◌, if◌then◌else◌, arith, dec_lt,
}
use gomart.Prelude.WellFounded.{lt_wf}

parse_from : Bytes → ℕ → Option ℕ
parse_from [] n = some n
parse_from (c ∷ s) n =
    let rest = parse_from s (n * 10 + (c - b'0')) in
    if ltb c b'0' || ltb b'9' c || leb (2 ^ 64) (n * 10 + (c - b'0')) then none else rest

-- `none` for a text that is empty, holds another character than a digit, or does not fit 64 bits.
unfoldable pub parse_uint : Bytes → Option ℕ
unfolding parse_from
parse_uint [] = none
parse_uint (c ∷ s) = parse_from (c ∷ s) 0

-- The digits of a number, in front of a text.
digits_onto : (text : Bytes) (n : ℕ) → Acc ◌<◌ n → Bytes
digits_onto text n (Acc.intro _ below) =
    dite (dec_lt 9 n)
      (λ big. digits_onto ((b'0' + n % 10) ∷ text) (n / 10) (below (n / 10) (omega arith)))
      (λ _. (b'0' + n) ∷ text)

unfoldable pub format_uint : ℕ → Bytes
unfolding digits_onto dec_lt lt_wf
format_uint n = digits_onto [] n (lt_wf.apply n)
