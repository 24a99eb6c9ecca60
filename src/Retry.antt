-- ===== src/Retry.antt =====
-- `RetryAction` of internal/common/utils/common.go, which starts the database pool.
pub mod Attempts
pub mod Bounds
use gomart.Prelude.{
  ℕ, ◌+◌, Bool, true, false, ◌||◌, Option, none, some, List, [], ◌∷◌, ◌++◌, if◌then◌else◌,
}

pub data Outcome (E : Type 0) : Type 0 where
  cancelled succeeded : Outcome E
  failed : E → Outcome E

-- How the loop ended, how often it called back, and the pauses that it took, in milliseconds.
pub record Ended (E : Type 0) : Type 0 where
  pub outcome : Outcome E
  pub calls : ℕ
  pub slept : List ℕ

abbrev pub retry_times : List ℕ
retry_times = 1000 ∷ 3000 ∷ 5000 ∷ []

abbrev pub probe_default : {E : Type 0} → E → Bool
probe_default err = true

-- `if len(probers) == 0 { probers = append(probers, probeDefault) }`
abbrev pub or_default : {E : Type 0} → List (E → Bool) → List (E → Bool)
or_default [] = probe_default ∷ []
or_default (p ∷ ps) = p ∷ ps

-- The loop over the probers: whether one of them accepts the error.
unfoldable pub should_continue : {E : Type 0} → List (E → Bool) → E → Bool
should_continue [] err = false
should_continue (prober ∷ probers) err = prober err || should_continue probers err

-- `callback i` is what the i-th call returns, and `done i` whether the context is done before it.
module _ {E : Type 0} (callback : ℕ → Option E) (done : ℕ → Bool) (probers : List (E → Bool)) where
  pub retry_from : ℕ → List ℕ → List ℕ → Ended E
  retry_from i slept [] =
      if done i
      then record { outcome = cancelled; calls = i; slept = slept }
      else elim (callback i) [
        | none ↦ record { outcome = succeeded; calls = i + 1; slept = slept }
        | some err ↦ record { outcome = failed err; calls = i + 1; slept = slept }
      ]
  retry_from i slept (t ∷ timers) =
      let again = retry_from (i + 1) (slept ++ t ∷ []) timers in
      if done i
      then record { outcome = cancelled; calls = i; slept = slept }
      else elim (callback i) [
        | none ↦ record { outcome = succeeded; calls = i + 1; slept = slept }
        | some err ↦
            if should_continue (or_default probers) err
            then again
            else record { outcome = failed err; calls = i + 1; slept = slept }
      ]

  unfoldable pub retry_action : List ℕ → Ended E
  unfolding retry_from
  retry_action timers = retry_from 0 [] timers
