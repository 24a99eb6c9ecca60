-- ===== src/PgStore/Start.antt =====
-- `Start` of internal/common/store/pg/pg.go: the pool is opened, and then pinged.
use gomart.Prelude.{
  ℕ, ◌+◌, ◌-◌, ◌≤◌, ◌≡◌, Bool, false, Option, none, some, List, [], ◌∷◌, ◌++◌, arith, subst,
}
use gomart.Retry.{Outcome, succeeded, failed, cancelled, Ended, retry_times, retry_action}
use gomart.Retry.Bounds.{sum, IsBounded, Explains, retry_action-IsBounded}

sum-append : (xs ys : List ℕ) → sum (xs ++ ys) ≡ sum xs + sum ys
sum-append [] ys = omega arith
sum-append (x ∷ xs) ys = omega (arith, sum-append xs ys)

-- An error, with the code that `errors.As` finds in it where there is a `pgconn.PgError`.
module _ {E Code : Type 0} (pg_err : E → Option Code) (is_connection_exception : Code → Bool) where
  unfoldable pub probe_pg_connection : E → Bool
  probe_pg_connection err = elim (pg_err err) [
    | none ↦ false
    | some code ↦ is_connection_exception code
  ]

  -- How `Start` ended, how often it opened and pinged the pool, and its pauses.
  pub record Started : Type 0 where
    pub outcome : Outcome E
    pub opened : ℕ
    pub pinged : ℕ
    pub slept : List ℕ

  abbrev pub after_open : Ended E → Ended E → Started
  after_open opened pinged = elim opened.outcome [
    | succeeded ↦ record {
      outcome = pinged.outcome;
      opened = opened.calls;
      pinged = pinged.calls;
      slept = opened.slept ++ pinged.slept;
    }
    | cancelled ↦ record {
      outcome = cancelled;
      opened = opened.calls;
      pinged = 0;
      slept = opened.slept;
    }
    | failed err ↦ record {
      outcome = failed err;
      opened = opened.calls;
      pinged = 0;
      slept = opened.slept;
    }
  ]

  -- `new` is what each call of `pgxpool.New` returns and `ping` each call of `Ping`, with the contexts
  -- of the two as they are done before each.
  module _ (new : ℕ → Option E) (done : ℕ → Bool) (ping : ℕ → Option E) (done_ping : ℕ → Bool) where
    unfoldable pub start : Started
    start =
        after_open (retry_action new done [] retry_times)
          (retry_action ping done_ping (probe_pg_connection ∷ []) retry_times)

    abbrev HasBounds : Started → Type 0
    HasBounds s =
        (s.opened ≤ 4)
        × (s.pinged ≤ 4)
        × (sum s.slept ≤ 18000)
        × (s.outcome ≡ succeeded → (new (s.opened - 1) ≡ none) × (ping (s.pinged - 1) ≡ none))

    after_open-HasBounds :
        (x : Outcome E) (calls : ℕ) (slept : List ℕ) (p : Ended E)
        → IsBounded new done [] 4 9000 (record { outcome = x; calls = calls; slept = slept })
        → IsBounded ping done_ping (probe_pg_connection ∷ []) 4 9000 p
        → HasBounds (after_open (record { outcome = x; calls = calls; slept = slept }) p)
    after_open-HasBounds succeeded calls slept p b c =
        let few = c.few in
        let long = c.short in
        let own = b.short in
        (
          b.few,
          few,
          omega (arith, sum-append slept p.slept, long, own),
          (λ e. (
            b.explained,
            subst (λ x. Explains ping done_ping (probe_pg_connection ∷ []) x p.calls) e c.explained,
          )),
        )
    after_open-HasBounds cancelled calls slept p b c =
        let own = b.short in (b.few, omega arith, omega (arith, own), (λ e. absurd (ground arith)))
    after_open-HasBounds (failed err) calls slept p b c =
        let own = b.short in (b.few, omega arith, omega (arith, own), (λ e. absurd (ground arith)))

    -- `Start` opens the pool at most 4 times, pings at most 4 times, and pauses for at most 18 seconds;
    -- and if it returns no error, the last opening and the last ping did not either.
    pub start-bounds :
        (start.opened ≤ 4)
        × (start.pinged ≤ 4)
        × (sum start.slept ≤ 18000)
        × (start.outcome ≡ succeeded
            → (new (start.opened - 1) ≡ none) × (ping (start.pinged - 1) ≡ none))
    unfolding start
    start-bounds =
        let opened = retry_action new done [] retry_times in
        after_open-HasBounds opened.outcome opened.calls opened.slept
          (retry_action ping done_ping (probe_pg_connection ∷ []) retry_times)
          (retry_action-IsBounded new done [] retry_times)
          (retry_action-IsBounded ping done_ping (probe_pg_connection ∷ []) retry_times)
