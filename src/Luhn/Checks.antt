-- ===== src/Luhn/Checks.antt =====
-- What the Luhn test of order numbers detects, and that each number has one check digit.
use gomart.Prelude.{
  ℕ, ◌+◌, ◌*◌, ◌-◌, ◌/◌, ◌%◌, ◌≤◌, ◌<◌, ◌≡◌, ◌≢◌, ap, Bool, true, false, not, List, [], ◌∷◌, ◌++◌,
  if◌then◌else◌, arith, length, length-append, All-append_right,
}
use gomart.Luhn.{checksum_luhn, valid_luhn}
use gomart.Luhn.Digits.{AreDigits, value, doubled, luhn_sum, valid_luhn-eq-luhn_sum}

abbrev weight : Bool → ℕ → ℕ
weight double d = if double then doubled d else d

-- Whether the digit behind a prefix is doubled.
flag : Bool → List ℕ → Bool
flag b [] = b
flag b (x ∷ xs) = flag (not b) xs

luhn_sum-replace :
    (pre post : List ℕ) (b : Bool) (d e : ℕ)
    → luhn_sum b (pre ++ d ∷ post) + weight (flag b pre) e
      ≡ luhn_sum b (pre ++ e ∷ post) + weight (flag b pre) d
unfolding luhn_sum flag
luhn_sum-replace [] post b d e = omega arith
luhn_sum-replace (x ∷ pre) post b d e = omega (arith, luhn_sum-replace pre post (not b) d e)

luhn_sum-swap :
    (pre post : List ℕ) (b : Bool) (d e : ℕ)
    → luhn_sum b (pre ++ d ∷ e ∷ post) + (weight (flag b pre) e + weight (not (flag b pre)) d)
      ≡ luhn_sum b (pre ++ e ∷ d ∷ post) + (weight (flag b pre) d + weight (not (flag b pre)) e)
unfolding luhn_sum flag
luhn_sum-swap [] post b d e = omega arith
luhn_sum-swap (x ∷ pre) post b d e = omega (arith, luhn_sum-swap pre post (not b) d e)

weight-injective :
    (b : Bool) (d e : ℕ) → d < 10 → e < 10 → d ≢ e → weight b d % 10 ≢ weight b e % 10
weight-injective true d e p q ne = ground arith
weight-injective false d e p q ne = omega arith

weight-swap :
    (b : Bool) (d e : ℕ)
    → d < 10
    → e < 10
    → d ≢ e
    → (d ≡ 0 → e ≢ 9)
    → (e ≡ 0 → d ≢ 9)
    → (weight b d + weight (not b) e) % 10 ≢ (weight b e + weight (not b) d) % 10
weight-swap true d e p q ne h k = ground arith
weight-swap false d e p q ne h k = ground arith

-- Two numbers whose sums are apart modulo ten are not both valid.
valid_luhn-apart :
    (ds es : List ℕ)
    → AreDigits ds
    → AreDigits es
    → length ds ≤ 20
    → length es ≤ 20
    → luhn_sum false ds % 10 ≢ luhn_sum false es % 10
    → valid_luhn (value ds) ≡ true
    → valid_luhn (value es) ≡ false
valid_luhn-apart ds es hd he sd se ne v =
    ground (arith, valid_luhn-eq-luhn_sum ds hd sd, valid_luhn-eq-luhn_sum es he se)

-- One wrong digit in a valid order number of at most 20 digits is detected.
pub valid_luhn-replace :
    (pre post : List ℕ) (d e : ℕ)
    → AreDigits (pre ++ d ∷ post)
    → AreDigits (pre ++ e ∷ post)
    → length (pre ++ d ∷ post) ≤ 20
    → d ≢ e
    → valid_luhn (value (pre ++ d ∷ post)) ≡ true
    → valid_luhn (value (pre ++ e ∷ post)) ≡ false
valid_luhn-replace pre post d e hd he small ne v =
    let (p, _) = All-append_right (λ x. x < 10) pre (d ∷ post) hd in
    let (q, _) = All-append_right (λ x. x < 10) pre (e ∷ post) he in
    valid_luhn-apart (pre ++ d ∷ post) (pre ++ e ∷ post) hd he small
      (omega (arith, length-append pre (d ∷ post), length-append pre (e ∷ post)))
      (λ same.
        weight-injective (flag false pre) d e p q ne
          (omega (arith, luhn_sum-replace pre post false d e)))
      v

-- Two neighbouring digits of a valid order number of at most 20 digits that were exchanged are
-- detected, but for equal digits and for 0 and 9.
pub valid_luhn-swap :
    (pre post : List ℕ) (d e : ℕ)
    → AreDigits (pre ++ d ∷ e ∷ post)
    → AreDigits (pre ++ e ∷ d ∷ post)
    → length (pre ++ d ∷ e ∷ post) ≤ 20
    → d ≢ e
    → (d ≡ 0 → e ≢ 9)
    → (e ≡ 0 → d ≢ 9)
    → valid_luhn (value (pre ++ d ∷ e ∷ post)) ≡ true
    → valid_luhn (value (pre ++ e ∷ d ∷ post)) ≡ false
valid_luhn-swap pre post d e hd he small ne h k v =
    let (p, rest) = All-append_right (λ x. x < 10) pre (d ∷ e ∷ post) hd in
    let (q, _) = rest in
    valid_luhn-apart (pre ++ d ∷ e ∷ post) (pre ++ e ∷ d ∷ post) hd he small
      (omega (arith, length-append pre (d ∷ e ∷ post), length-append pre (e ∷ d ∷ post)))
      (λ same.
        weight-swap (flag false pre) d e p q ne h k
          (omega (arith, luhn_sum-swap pre post false d e)))
      v

-- Every number can be completed to a valid order number by exactly one last digit.
valid_luhn-check_digit :
    (n : ℕ)
    → (c : ℕ) × (c < 10)
      × (valid_luhn (10 * n + c) ≡ true)
      × ((e : ℕ) → e < 10 → valid_luhn (10 * n + e) ≡ true → e ≡ c)
unfolding valid_luhn
valid_luhn-check_digit n =
    let body : (k : ℕ) → k < 10 → (10 * n + k) / 10 ≡ n = λ k h. omega arith in
    let c = (10 - checksum_luhn n % 10) % 10 in
    (
      c,
      omega arith,
      rw (body c (omega arith)) (ground arith),
      λ e h v. ground (arith, ap checksum_luhn (body e h)),
    )
