-- ===== src/Luhn/Digits.antt =====
-- The Luhn sum of a list of digits, and that the loop computes it.
use mathlib.Core.WellFounded.{Acc}
use mathlib.Core.Logic.{dif_pos, dif_neg}
use native.Mathlib.Bridge.{le_prop}
use gomart.Prelude.{
  ◌∙◌, ap, ℕ, ◌+◌, ◌*◌, ◌-◌, ◌/◌, ◌%◌, ◌^◌, ◌≤◌, ◌<◌, ◌≡◌, refl, ◌⊎◌, inl, inr, Bool, true, false,
  not, List, [], ◌∷◌, ltb, ◌==◌, if◌then◌else◌, arith, dec_lt, All, length,
}
use gomart.Prelude.WellFounded.{lt_wf}
use gomart.Luhn.{weigh, checksum_from, checksum_luhn, valid_luhn}

abbrev pub AreDigits : List ℕ → Type 0
AreDigits = All (λ d. d < 10)

-- The number that a list of digits writes, the last digit first.
abbrev pub value : List ℕ → ℕ
value [] = 0
value (d ∷ ds) = d + 10 * value ds

abbrev pub doubled : ℕ → ℕ
doubled d = if ltb 4 d then 2 * d - 9 else 2 * d

-- The Luhn sum from the last digit: digits are doubled in turn.
unfoldable pub luhn_sum : Bool → List ℕ → ℕ
luhn_sum double [] = 0
luhn_sum double (d ∷ ds) = (if double then doubled d else d) + luhn_sum (not double) ds

luhn_sum-zero : (b : Bool) (ds : List ℕ) → value ds ≡ 0 → luhn_sum b ds ≡ 0
unfolding luhn_sum
luhn_sum-zero b [] h = refl
luhn_sum-zero true (d ∷ ds) h = ground (arith, luhn_sum-zero false ds (omega arith))
luhn_sum-zero false (d ∷ ds) h = ground (arith, luhn_sum-zero true ds (omega arith))

abbrev is_even : ℕ → Bool
is_even i = (i % 2) == 0

weigh-eq-doubled : (i d : ℕ) → d < 10 → weigh i d ≡ (if is_even i then doubled d else d)
weigh-eq-doubled i d h = ground arith

weigh-le : (i d : ℕ) → d < 10 → weigh i d ≤ 9
weigh-le i d h = ground arith

is_even-suc : (i : ℕ) → is_even (i + 1) ≡ not (is_even i)
is_even-suc i = ground arith

checksum_from-zero :
    (n : ℕ) (w : Acc ◌<◌ n) (i luhn : ℕ) → n ≡ 0 → checksum_from n w i luhn ≡ luhn % 10
unfolding checksum_from
checksum_from-zero n (Acc.intro _ smaller) i luhn e = dif_neg (dec_lt 0 n) (omega arith) _ _

checksum_from-step :
    (n : ℕ) (w : Acc ◌<◌ n) (i luhn : ℕ)
    → 0 < n
    → (w' : Acc ◌<◌ (n / 10)) × (checksum_from n w i luhn
        ≡ checksum_from (n / 10) w' (i + 1) ((luhn + weigh i (n % 10)) % 2 ^ 64))
unfolding checksum_from
checksum_from-step n (Acc.intro _ smaller) i luhn p =
    (smaller (n / 10) (omega arith), dif_pos (dec_lt 0 n) le_prop p _ _)

Pos-cases : (n : ℕ) → (n ≡ 0) ⊎ (0 < n)
Pos-cases n = omega arith

checksum_from-eq-luhn_sum :
    (ds : List ℕ) (n : ℕ) (w : Acc ◌<◌ n) (i luhn : ℕ)
    → n ≡ value ds
    → AreDigits ds
    → luhn + 9 * length ds < 2 ^ 64
    → checksum_from n w i luhn ≡ (luhn + luhn_sum (is_even i) ds) % 10
unfolding luhn_sum
checksum_from-eq-luhn_sum [] n w i luhn e h small = checksum_from-zero n w i luhn e ∙ omega arith
checksum_from-eq-luhn_sum (d ∷ ds) n w i luhn e h small = elim (Pos-cases n) [
  | inl z ↦ checksum_from-zero n w i luhn z ∙ omega (arith, luhn_sum-zero (is_even i) (d ∷ ds))
  | inr p ↦
      let (w', step) = checksum_from-step n w i luhn p in
      let last : n % 10 ≡ d = omega arith in
      let added = (luhn + weigh i (n % 10)) % 2 ^ 64 in
      let total : added ≡ luhn + (if is_even i then doubled d else d) =
        omega (arith, weigh-eq-doubled i d h.0, weigh-le i (n % 10), ap (weigh i) last) in
      step
      ∙ checksum_from-eq-luhn_sum ds (n / 10) w' (i + 1) added (omega arith) h.1
          (omega (arith, weigh-le i (n % 10)))
      ∙ rw (is_even-suc, total) (omega arith)
]

checksum_luhn-eq-luhn_sum :
    (ds : List ℕ) → AreDigits ds → length ds ≤ 20 → checksum_luhn (value ds) ≡ luhn_sum true ds % 10
unfolding checksum_luhn
checksum_luhn-eq-luhn_sum ds h small =
    checksum_from-eq-luhn_sum ds (value ds) (lt_wf.apply (value ds)) 0 0 refl h (omega arith)
    ∙ omega arith

-- `ValidLuhn` is the Luhn test: the digits of the number, every second one from the right doubled,
-- sum to a multiple of ten, for at most 20 digits. Leading zeros may be written.
pub valid_luhn-eq-luhn_sum :
    (ds : List ℕ)
    → AreDigits ds
    → length ds ≤ 20
    → valid_luhn (value ds) ≡ ((luhn_sum false ds % 10) == 0)
unfolding valid_luhn luhn_sum
valid_luhn-eq-luhn_sum [] h small = rw (checksum_luhn-eq-luhn_sum [] tt (omega arith))
valid_luhn-eq-luhn_sum (d ∷ ds) h small =
    let body : (d + 10 * value ds) / 10 ≡ value ds = omega arith in
    ap (λ k. k == 0)
      (ap (λ n. ((d + 10 * value ds) % 10 + checksum_luhn n) % 10) body
        ∙ omega (arith, checksum_luhn-eq-luhn_sum ds h.1))
