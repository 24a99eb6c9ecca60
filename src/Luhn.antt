-- ===== src/Luhn.antt =====
-- The Luhn test of order numbers: `ValidLuhn` and `checksumLuhn` of
-- internal/common/utils/common.go.
pub mod Digits
pub mod Checks
mod Tests
use mathlib.Core.WellFounded.{Acc}
use mathlib.Core.Logic.{dite}
use gomart.Prelude.{
  ℕ, zero, suc, ◌+◌, ◌*◌, ◌/◌, ◌%◌, ◌^◌, ◌<◌, Bool, ltb, ◌==◌, if◌then◌else◌, arith, dec_lt,
}
use gomart.Prelude.WellFounded.{lt_wf}

abbrev module_def : ℕ
module_def = 10

abbrev module_def_min : ℕ
module_def_min = 9

-- `i%2 == 0`: twice the digit, and the digit sum of that.
abbrev pub weigh : ℕ → ℕ → ℕ
weigh i cur =
    if (i % 2) == 0
    then (if ltb module_def_min (cur * 2)
        then (cur * 2) % module_def + (cur * 2) / module_def
        else cur * 2)
    else cur

-- `for i := 0; number > 0; i++`; `luhn` is a uint64.
checksum_from : (number : ℕ) → Acc ◌<◌ number → ℕ → ℕ → ℕ
checksum_from number (Acc.intro _ smaller) i luhn =
    dite (dec_lt 0 number)
      (λ h.
        checksum_from (number / module_def) (smaller (number / module_def) (omega arith)) (i + 1)
          ((luhn + weigh i (number % module_def)) % 2 ^ 64))
      (λ _. luhn % module_def)

unfoldable pub checksum_luhn : ℕ → ℕ
unfolding checksum_from dec_lt lt_wf
checksum_luhn number = checksum_from number (lt_wf.apply number) 0 0

unfoldable pub valid_luhn : ℕ → Bool
valid_luhn number = ((number % 10 + checksum_luhn (number / module_def)) % module_def) == 0
