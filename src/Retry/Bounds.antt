-- ===== src/Retry/Bounds.antt =====
-- How far `RetryAction` goes at most, and what its result says of the calls.
use gomart.Prelude.{
  ℕ, ◌+◌, ◌-◌, ◌≤◌, ◌≡◌, Bool, true, Option, none, some, List, [], ◌∷◌, ◌++◌, length, arith,
  Bool-cases, Option-cases, inl, inr,
}
use gomart.Retry.{
  succeeded, failed, cancelled, Outcome, Ended, or_default, should_continue, retry_from,
  retry_action,
}

abbrev pub sum : List ℕ → ℕ
sum [] = 0
sum (t ∷ ts) = t + sum ts

sum-snoc : (ts : List ℕ) (t : ℕ) → sum (ts ++ t ∷ []) ≡ sum ts + t
sum-snoc [] t = omega arith
sum-snoc (u ∷ ts) t = omega (arith, sum-snoc ts t)

module _ {E : Type 0} (callback : ℕ → Option E) (done : ℕ → Bool) (probers : List (E → Bool)) where
  last : (i : ℕ) → i + 1 - 1 ≡ i
  last i = omega arith

  -- The result is that of the last call, or the context was done before the next.
  abbrev pub Explains : Outcome E → ℕ → Type 0
  Explains succeeded calls = callback (calls - 1) ≡ none
  Explains (failed err) calls = callback (calls - 1) ≡ some err
  Explains cancelled calls = done calls ≡ true

  -- No more calls and pauses than there are.
  pub record IsBounded (calls pauses : ℕ) (ended : Ended E) : Type 0 where
    pub few : ended.calls ≤ calls
    pub short : sum ended.slept ≤ pauses
    pub explained : Explains ended.outcome ended.calls

  retry_from-IsBounded :
      (i : ℕ) (slept timers : List ℕ)
      → IsBounded
          (i + length timers + 1)
          (sum slept + sum timers)
          (retry_from callback done probers i slept timers)
  unfolding retry_from
  retry_from-IsBounded i slept [] = elim (Bool-cases (done i)) [
    | inl over ↦ rw over (record { few = omega arith; short = omega arith; explained = over })
    | inr open_ ↦ elim (Option-cases (callback i)) [
      | inl won ↦
          rw (open_, won)
            (record { few = omega arith; short = omega arith; explained = rw (last i) won })
      | inr (e, lost) ↦
          rw (open_, lost)
            (record { few = omega arith; short = omega arith; explained = rw (last i) lost })
    ]
  ]
  retry_from-IsBounded i slept (t ∷ timers) = elim (Bool-cases (done i)) [
    | inl over ↦ rw over (record { few = omega arith; short = omega arith; explained = over })
    | inr open_ ↦ elim (Option-cases (callback i)) [
      | inl won ↦
          rw (open_, won)
            (record { few = omega arith; short = omega arith; explained = rw (last i) won })
      | inr (e, lost) ↦ elim (Bool-cases (should_continue (or_default probers) e)) [
        | inr stop ↦
            rw (open_, lost, stop)
              (record { few = omega arith; short = omega arith; explained = rw (last i) lost })
        | inl again ↦
            let rest = retry_from-IsBounded (i + 1) (slept ++ t ∷ []) timers in
            let few = rest.few in
            let short = rest.short in
            rw (open_, lost, again)
              (record {
                few = omega (arith, few);
                short = omega (arith, short, sum-snoc slept t);
                explained = rest.explained;
              })
      ]
    ]
  ]

  -- `RetryAction` calls back once, and once more after each pause at most; its pauses are no longer than
  -- the given ones together; and it returns what the last call returned, or that the context is done.
  pub retry_action-IsBounded :
      (timers : List ℕ)
      → IsBounded (length timers + 1) (sum timers) (retry_action callback done probers timers)
  unfolding retry_action
  retry_action-IsBounded timers =
      let all = retry_from-IsBounded 0 [] timers in
      let few = all.few in
      let short = all.short in
      record { few = omega (arith, few); short = omega (arith, short); explained = all.explained }
