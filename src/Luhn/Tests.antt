-- ===== src/Luhn/Tests.antt =====
-- Order numbers of the specification, and others, under the Luhn test.
use gomart.Prelude.{ℕ, ◌≡◌, refl, true, false, List, [], ◌∷◌, ◌++◌, arith, ◌==◌, ◌%◌}
use gomart.Luhn.{valid_luhn}
use gomart.Luhn.Digits.{AreDigits, value, luhn_sum, valid_luhn-eq-luhn_sum}
use gomart.Luhn.Checks.{valid_luhn-replace, valid_luhn-swap}

-- The digits of 2377225624 behind its last two, the last first.
abbrev higher : List ℕ
higher = 6 ∷ 5 ∷ 2 ∷ 2 ∷ 7 ∷ 7 ∷ 3 ∷ 2 ∷ []

higher-AreDigits : AreDigits higher
higher-AreDigits = (
  omega arith,
  (
    omega arith,
    (omega arith, (omega arith, (omega arith, (omega arith, (omega arith, (omega arith, tt)))))),
  ),
)

valid_luhn-sum : (luhn_sum false (4 ∷ 2 ∷ higher) % 10) ≡ 0
unfolding luhn_sum
valid_luhn-sum = refl

valid : valid_luhn (value ((4 ∷ []) ++ 2 ∷ higher)) ≡ true
unfolding luhn_sum
valid =
    valid_luhn-eq-luhn_sum (4 ∷ 2 ∷ higher) (omega arith, (omega arith, higher-AreDigits))
      (omega arith)

valid_luhn-eq-luhn_sum_example :
    valid_luhn (value (4 ∷ 2 ∷ higher)) ≡ ((luhn_sum false (4 ∷ 2 ∷ higher) % 10) == 0)
valid_luhn-eq-luhn_sum_example =
    valid_luhn-eq-luhn_sum (4 ∷ 2 ∷ higher) (omega arith, (omega arith, higher-AreDigits))
      (omega arith)

-- 2377225674 is refused.
valid_luhn-replace_example : valid_luhn (value ((4 ∷ []) ++ 7 ∷ higher)) ≡ false
valid_luhn-replace_example =
    valid_luhn-replace (4 ∷ []) higher 2 7 (omega arith, (omega arith, higher-AreDigits))
      (omega arith, (omega arith, higher-AreDigits)) (omega arith) (omega arith) valid

-- 2377225642 is refused.
valid_luhn-swap_example : valid_luhn (value ([] ++ 2 ∷ 4 ∷ higher)) ≡ false
valid_luhn-swap_example =
    valid_luhn-swap [] higher 4 2 (omega arith, (omega arith, higher-AreDigits))
      (omega arith, (omega arith, higher-AreDigits)) (omega arith) (omega arith) (λ h. omega arith)
      (λ h. omega arith) valid
