-- ===== src/Retry/Attempts.antt =====
-- How often `RetryAction` calls back, and what it returns.
use mathlib.Core.List.{append-nil, append_assoc}
use gomart.Prelude.{
  ℕ, suc, ◌+◌, ◌≤◌, ◌<◌, ◌≡◌, refl, ◌∙◌, Bool, true, false, Option, none, some, List, [], ◌∷◌, ◌++◌,
  length, take, inl, inr, ◌⊎◌, ◌-◌, arith, ap,
}
use gomart.Retry.{succeeded, failed, Ended, or_default, should_continue, retry_from, retry_action}

le-cases : (i n : ℕ) → i ≤ n → (n ≡ i) ⊎ (i < n)
le-cases i n h = omega arith

module _ {E : Type 0} (callback : ℕ → Option E) (done : ℕ → Bool) (probers : List (E → Bool)) where
  abbrev run : ℕ → List ℕ → List ℕ → Ended E
  run = retry_from callback done probers

  -- The call numbered `i` failed with an error that is worth another try.
  pub record Retryable (i : ℕ) : Type 0 where
    pub err : E
    pub not_done : done i ≡ false
    pub returned : callback i ≡ some err
    pub probed : should_continue (or_default probers) err ≡ true

  retry_from-step :
      (i t : ℕ) (slept timers : List ℕ)
      → Retryable i
      → run i slept (t ∷ timers) ≡ run (i + 1) (slept ++ t ∷ []) timers
  unfolding retry_from
  retry_from-step i t slept timers r = rw (r.not_done, r.returned, r.probed) refl

  retry_from-won :
      (i : ℕ) (slept timers : List ℕ)
      → done i ≡ false
      → callback i ≡ none
      → run i slept timers ≡ record { outcome = succeeded; calls = i + 1; slept = slept }
  unfolding retry_from
  retry_from-won i slept [] open_ won = rw (open_, won) refl
  retry_from-won i slept (t ∷ timers) open_ won = rw (open_, won) refl

  retry_from-lost :
      (i : ℕ) (slept : List ℕ) (err : E)
      → done i ≡ false
      → callback i ≡ some err
      → run i slept [] ≡ record { outcome = failed err; calls = i + 1; slept = slept }
  unfolding retry_from
  retry_from-lost i slept err open_ lost = rw (open_, lost) refl

  retry_from-succeeded :
      (n i : ℕ) (slept timers : List ℕ)
      → i ≤ n
      → n ≤ i + length timers
      → ((j : ℕ) → i ≤ j → j < n → Retryable j)
      → done n ≡ false
      → callback n ≡ none
      → run i slept timers
        ≡ record { outcome = succeeded; calls = n + 1; slept = slept ++ take (n - i) timers }
  retry_from-succeeded n i slept [] h k r open_ won =
      let e : n ≡ i = omega arith in
      let z : n - i ≡ 0 = omega arith in
      retry_from-won i slept [] (rw e at open_) (rw e at won) ∙ rw (z, append-nil, e) refl
  retry_from-succeeded n i slept (t ∷ timers) h k r open_ won = elim (le-cases i n h) [
    | inl e ↦
        let z : n - i ≡ 0 = omega arith in
        retry_from-won i slept (t ∷ timers) (rw e at open_) (rw e at won)
        ∙ rw (z, append-nil, e) refl
    | inr p ↦
        let z : n - i ≡ suc (n - (i + 1)) = omega arith in
        retry_from-step i t slept timers (r i (omega arith) p)
        ∙ retry_from-succeeded n (i + 1) (slept ++ t ∷ []) timers (omega arith) (omega arith)
            (λ j a b. r j (omega arith) b) open_ won
        ∙ rw (z, append_assoc) refl
  ]

  -- The first call that returns no error ends the loop with success, after the pauses before it,
  -- if it comes at most `length timers` calls after the first, every call before it failed with an
  -- error that is worth another try, and the context is not done.
  pub retry_action-succeeded :
      (n : ℕ) (timers : List ℕ)
      → n ≤ length timers
      → ((j : ℕ) → j < n → Retryable j)
      → done n ≡ false
      → callback n ≡ none
      → retry_action callback done probers timers
        ≡ record { outcome = succeeded; calls = n + 1; slept = take n timers }
  unfolding retry_action
  retry_action-succeeded n timers h r open_ won =
      retry_from-succeeded n 0 [] timers (omega arith) (omega arith) (λ j _ b. r j b) open_ won
      ∙ ap (λ m. record { outcome = succeeded; calls = n + 1; slept = take m timers }) (omega arith)

  retry_from-failed :
      (i : ℕ) (slept timers : List ℕ) (err : E)
      → ((j : ℕ) → i ≤ j → j < i + length timers → Retryable j)
      → done (i + length timers) ≡ false
      → callback (i + length timers) ≡ some err
      → run i slept timers
        ≡ record { outcome = failed err; calls = i + length timers + 1; slept = slept ++ timers }
  retry_from-failed i slept [] err r open_ lost =
      let e : i + 0 ≡ i = omega arith in
      retry_from-lost i slept err (rw e at open_) (rw e at lost) ∙ rw (append-nil, e) refl
  retry_from-failed i slept (t ∷ timers) err r open_ lost =
      let e : i + suc (length timers) ≡ i + 1 + length timers = omega arith in
      retry_from-step i t slept timers (r i (omega arith) (omega arith))
      ∙ retry_from-failed (i + 1) (slept ++ t ∷ []) timers err
          (λ j a b. r j (omega arith) (omega arith)) (rw (← e) open_) (rw (← e) lost)
      ∙ rw (e, append_assoc) refl

  -- When every call fails with an error that is worth another try, the callback is called once and
  -- then once after each pause, and the last error is returned.
  retry_action-failed :
      (timers : List ℕ) (err : E)
      → ((j : ℕ) → j < length timers → Retryable j)
      → done (length timers) ≡ false
      → callback (length timers) ≡ some err
      → retry_action callback done probers timers
        ≡ record { outcome = failed err; calls = length timers + 1; slept = timers }
  unfolding retry_action
  retry_action-failed timers err r open_ lost =
      let e : 0 + length timers ≡ length timers = omega arith in
      retry_from-failed 0 [] timers err (λ j _ b. r j (omega arith)) (rw e open_) (rw e lost)
      ∙ rw e refl
