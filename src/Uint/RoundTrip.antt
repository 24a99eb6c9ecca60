-- ===== src/Uint/RoundTrip.antt =====
-- A number that is written and read back is the same number.
use mathlib.Core.WellFounded.{Acc}
use mathlib.Core.Logic.{dif_pos, dif_neg}
use native.Mathlib.Bridge.{le_prop}
use gomart.Prelude.{
  is_empty, false, ℕ, ◌+◌, ◌*◌, ◌-◌, ◌/◌, ◌%◌, ◌^◌, ◌<◌, ◌≢◌, ◌≡◌, ◌∙◌, ap, inl, inr, ◌⊎◌, some, [],
  ◌∷◌, Bytes, arith, dec_lt,
}
use gomart.Prelude.WellFounded.{lt_wf}
use gomart.Uint.{parse_from, parse_uint, digits_onto, format_uint}

parse_from-digit :
    (d n : ℕ) (s : Bytes)
    → d < 10
    → n * 10 + d < 2 ^ 64
    → parse_from ((b'0' + d) ∷ s) n ≡ parse_from s (n * 10 + d)
unfolding parse_from
parse_from-digit d n s h k =
    let plain : (b'0' + d) - b'0' ≡ d = omega arith in rw plain (ground arith)

One-cases : (n : ℕ) → (9 < n) ⊎ (n < 10)
One-cases n = omega arith

parse_from-digits_onto :
    (text : Bytes) (n : ℕ) (w : Acc ◌<◌ n)
    → n < 2 ^ 64
    → parse_from (digits_onto text n w) 0 ≡ parse_from text n
unfolding digits_onto
parse_from-digits_onto text n (Acc.intro _ below) h = elim (One-cases n) [
  | inl big ↦
      ap (λ s. parse_from s 0) (dif_pos (dec_lt 9 n) le_prop big _ _)
      ∙ parse_from-digits_onto ((b'0' + n % 10) ∷ text) (n / 10) (below (n / 10) (omega arith))
          (omega arith)
      ∙ parse_from-digit (n % 10) (n / 10) text (omega arith) (omega arith)
      ∙ ap (parse_from text) (omega arith)
  | inr one ↦
      ap (λ s. parse_from s 0) (dif_neg (dec_lt 9 n) (omega arith) _ _)
      ∙ parse_from-digit n 0 text one (omega arith)
      ∙ ap (parse_from text) (omega arith)
]

digits_onto-is_empty :
    (text : Bytes) (n : ℕ) (w : Acc ◌<◌ n) → is_empty (digits_onto text n w) ≡ false
unfolding digits_onto
digits_onto-is_empty text n (Acc.intro _ below) = elim (One-cases n) [
  | inl big ↦
      ap is_empty (dif_pos (dec_lt 9 n) le_prop big _ _)
      ∙ digits_onto-is_empty ((b'0' + n % 10) ∷ text) (n / 10) (below (n / 10) (omega arith))
  | inr one ↦ ap is_empty (dif_neg (dec_lt 9 n) (omega arith) _ _)
]

-- No number is written as the empty text.
pub format_uint-is_empty : (n : ℕ) → is_empty (format_uint n) ≡ false
unfolding format_uint
format_uint-is_empty n = digits_onto-is_empty [] n (lt_wf.apply n)

parse_uint-of_parse_from :
    (s : Bytes) (n : ℕ) → n ≢ 0 → parse_from s 0 ≡ some n → parse_uint s ≡ some n
unfolding parse_uint
parse_uint-of_parse_from [] n ne e = ground arith
parse_uint-of_parse_from (c ∷ s) n ne e = e

digits_onto-one : (n : ℕ) → n < 10 → (w : Acc ◌<◌ n) → digits_onto [] n w ≡ (b'0' + n) ∷ []
unfolding digits_onto
digits_onto-one n one (Acc.intro _ below) = dif_neg (dec_lt 9 n) (omega arith) _ _

-- A 64-bit number written by `FormatUint` is read back by `ParseUint`.
pub parse_uint-format_uint : (n : ℕ) → n < 2 ^ 64 → parse_uint (format_uint n) ≡ some n
unfolding format_uint parse_uint parse_from
parse_uint-format_uint n h = elim (One-cases n) [
  | inl big ↦
      parse_uint-of_parse_from (digits_onto [] n (lt_wf.apply n)) n (omega arith)
        (parse_from-digits_onto [] n (lt_wf.apply n) h)
  | inr one ↦
      ap parse_uint (digits_onto-one n one (lt_wf.apply n))
      ∙ parse_from-digit n 0 [] one (omega arith)
      ∙ ap some (omega arith)
]

parse_from-lt : (s : Bytes) (m n : ℕ) → m < 2 ^ 64 → parse_from s m ≡ some n → n < 2 ^ 64
unfolding parse_from
parse_from-lt [] m n h e = ground arith
parse_from-lt (c ∷ s) m n h e = ground (arith, parse_from-lt s (m * 10 + (c - b'0')) n)

-- What `ParseUint` reads fits 64 bits.
pub parse_uint-lt : (s : Bytes) (n : ℕ) → parse_uint s ≡ some n → n < 2 ^ 64
unfolding parse_uint
parse_uint-lt [] n e = cc
parse_uint-lt (c ∷ s) n e = parse_from-lt (c ∷ s) 0 n (omega arith) e
