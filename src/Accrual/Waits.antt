-- ===== src/Accrual/Waits.antt =====
-- How long `mainAccrual` waits after a round.
use gomart.Prelude.{
  ℕ, ◌+◌, ◌*◌, ◌≤◌, ◌<◌, ◌-◌, ◌%◌, ◌^◌, leb, if◌then◌else◌, ap, ◌≡◌, refl, sym, subst, ◌∙◌, true,
  false, Bool-cases, inl, inr, ◌⊎◌, Option, some, List, [], ◌∷◌, ◌==◌, is_empty, ok, arith,
}
use gomart.Prelude.Int.{ℤ, pos, negsuc, pos_part, ◌+ℤ◌, ltb_ℤ, ◌≤ℤ◌, int_laws}
use gomart.Store.{Order}
use gomart.Conn.{World}
use gomart.Service.{get_orders_for_process}
use gomart.Pool.{JobResult, http_retry_code}
use gomart.Pool.Workers.Replies.{Among, first, later}
use gomart.Accrual.{
  Collected, has_no_error, collect_step, collect_from, collect, after_collect, main_accrual_round,
  to_int64, nanoseconds, sleep_time, sleep_cancellable,
}

-- An answer that asks for a wait.
abbrev pub AsksFor : JobResult → ℤ → Type 0
AsksFor res wait =
    (has_no_error res ≡ true) × (res.result ≡ http_retry_code) × (res.wait_sec ≡ wait)

-- From one wait to another over the results: no shorter, as long as every answer asks for, and what some
-- answer asks for unless it has stayed.
pub record IsLongest (start : ℤ) (results : List JobResult) (wait : ℤ) : Type 0 where
  pub grows : start ≤ℤ wait
  pub enough : (res : JobResult) (w : ℤ) → Among results res → AsksFor res w → w ≤ℤ wait
  pub stays : (wait ≡ start) ⊎ ((res : JobResult) × Among results res × AsksFor res wait)

step_grows : (c : Collected) (res : JobResult) → c.wait_sec ≤ℤ (collect_step c res).wait_sec
unfolding collect_step
step_grows c res = ground arith

step_enough :
    (c : Collected) (res : JobResult) (w : ℤ) → AsksFor res w → w ≤ℤ (collect_step c res).wait_sec
unfolding collect_step
step_enough c res w (good, busy, e) = rw (← e) (ground (arith, good, busy))

step_stays :
    (c : Collected) (res : JobResult)
    → ((collect_step c res).wait_sec ≡ c.wait_sec) ⊎ AsksFor res (collect_step c res).wait_sec
unfolding collect_step
step_stays c res = elim (Bool-cases (has_no_error res)) [
  | inr bad ↦ inl (ground arith)
  | inl good ↦ elim (Bool-cases (res.result == http_retry_code)) [
    | inr other ↦ inl (ground arith)
    | inl busy ↦ elim (Bool-cases (ltb_ℤ c.wait_sec res.wait_sec)) [
      | inr short ↦ inl (ground arith)
      | inl longer ↦ inr (good, ground arith, ground arith)
    ]
  ]
]

none_among : {P : Type 0} (res : JobResult) → Among {A = JobResult} [] res → P
none_among res a = elim a [ ]

module _ (c : Collected) (res : JobResult) (results : List JobResult) (wait : ℤ)
    (rest : IsLongest (collect_step c res).wait_sec results wait) where
  first-enough : (q : JobResult) (w : ℤ) → Among (res ∷ results) q → AsksFor q w → w ≤ℤ wait
  first-enough _ w first a = let grows = rest.grows in omega (arith, step_enough c res w a, grows)
  first-enough q w (later at) a = rest.enough q w at a

  first-stays : (wait ≡ c.wait_sec) ⊎ ((q : JobResult) × Among (res ∷ results) q × AsksFor q wait)
  first-stays = elim (rest.stays) [
    | inr (q, at, asks) ↦ inr (q, later at, asks)
    | inl same ↦ elim (step_stays c res) [
      | inl kept ↦ inl (same ∙ kept)
      | inr asks ↦ inr (res, first, subst (AsksFor res) (sym same) asks)
    ]
  ]

  first-IsLongest : IsLongest c.wait_sec (res ∷ results) wait
  first-IsLongest =
      let grows = rest.grows in
      record {
        grows = omega (arith, step_grows c res, grows);
        enough = first-enough;
        stays = first-stays;
      }

collect_from-IsLongest :
    (c : Collected) (results : List JobResult)
    → IsLongest c.wait_sec results (collect_from c results).wait_sec
unfolding collect_from
collect_from-IsLongest c [] = record {
  grows = omega arith;
  enough = λ res w a h. none_among res a;
  stays = inl refl;
}
collect_from-IsLongest c (res ∷ results) =
    first-IsLongest c res results (collect_from (collect_step c res) results).wait_sec
      (collect_from-IsLongest (collect_step c res) results)

collect-IsLongest :
    (results : List JobResult) → IsLongest (pos 0) results (collect results).wait_sec
unfolding collect
collect-IsLongest results =
    collect_from-IsLongest (record { res_orders = []; wait_sec = pos 0 }) results

after_collect-wait :
    (orders : List Order) (c : Collected) (w : World)
    → pos 0 ≤ℤ c.wait_sec
    → (after_collect orders c w).wait_sec ≡ c.wait_sec
unfolding after_collect
after_collect-wait orders c w h = grind (int_laws, h)

pos_part-nonneg : (n : ℤ) → pos 0 ≤ℤ n → pos (pos_part n) ≡ n
pos_part-nonneg (pos n) h = refl
pos_part-nonneg (negsuc n) h = absurd (ground (arith, h))

to_int64-fits : (n : ℕ) → n < 9223372036854775808 → to_int64 (pos n) ≡ pos n
unfolding to_int64
to_int64-fits n h =
    let same : (n % 2 ^ 64 + (2 ^ 64 - 0 % 2 ^ 64)) % 2 ^ 64 ≡ n = omega (arith, h) in
    rw same (ground (arith, h))

to_int64-wraps :
    (n : ℕ) → 9223372036854775808 ≤ n → n < 18446744073709551616 → pos_part (to_int64 (pos n)) ≡ 0
unfolding to_int64
to_int64-wraps n h k =
    let same : (n % 2 ^ 64 + (2 ^ 64 - 0 % 2 ^ 64)) % 2 ^ 64 ≡ n = omega (arith, k) in
    rw same (ground (arith, h))

sleep_time-pos :
    (poll wait : ℕ)
    → to_int64 (pos (poll + wait)) ≡ pos (poll + wait)
    → sleep_time (pos poll) (pos wait) ≡ to_int64 (pos ((poll + wait) * 1000000000))
unfolding sleep_time
sleep_time-pos poll wait fits =
    let sum : pos poll +ℤ pos wait ≡ pos (poll + wait) = omega int_laws in
    let product : nanoseconds (pos (poll + wait)) ≡ pos ((poll + wait) * 1000000000) =
      ground arith in
    ap (λ n. to_int64 (nanoseconds (to_int64 n))) sum
    ∙ ap (λ n. to_int64 (nanoseconds n)) fits
    ∙ ap to_int64 product

sleep_time-range :
    (poll wait : ℕ)
    → poll + wait ≤ 18446744073
    → sleep_cancellable (sleep_time (pos poll) (pos wait))
      ≡ (if leb (poll + wait) 9223372036 then (poll + wait) * 1000000000 else 0)
sleep_time-range poll wait h =
    let sum = to_int64-fits (poll + wait) (omega (arith, h)) in
    rw (sleep_time-pos poll wait sum) (elim (Bool-cases (leb (poll + wait) 9223372036)) [
      | inl short ↦
          let most : poll + wait ≤ 9223372036 = ground (arith, short) in
          let product = to_int64-fits ((poll + wait) * 1000000000) (omega (arith, most)) in
          rw (product, short) refl
      | inr long ↦
          let more : 9223372037 ≤ poll + wait = ground (arith, long) in
          rw
            (
              long,
              to_int64-wraps ((poll + wait) * 1000000000) (omega (arith, more)) (omega (arith, h)),
            )
            refl
    ])

-- After a round with results the wait is no less than 0 and than each 429 answer asks for, and if it is
-- not 0, then as long as one of them asks for. Up to 18446744073 seconds, the interval and the wait
-- together are how long `mainAccrual` sleeps, in nanoseconds, but only if they are at most 9223372036
-- seconds: above that it does not sleep at all, since the product exceeds 63 bits.
pub main_accrual_round-IsLongest :
    (pool : List Order → Option (List JobResult)) (w : World) (orders : List Order)
    (results : List JobResult) (poll_interval : ℕ)
    → (get_orders_for_process w).0 ≡ ok orders
    → is_empty orders ≡ false
    → pool orders ≡ some results
    → poll_interval + pos_part (main_accrual_round pool w).wait_sec ≤ 18446744073
    → let wait = (main_accrual_round pool w).wait_sec in
      let seconds = poll_interval + pos_part wait in
      IsLongest (pos 0) results wait
      × (sleep_cancellable (sleep_time (pos poll_interval) wait)
          ≡ (if leb seconds 9223372036 then seconds * 1000000000 else 0))
unfolding main_accrual_round
main_accrual_round-IsLongest pool w orders results poll found some_open delivered small =
    let longest = collect-IsLongest results in
    let w' = (get_orders_for_process w).1 in
    let waits : (main_accrual_round pool w).wait_sec
        ≡ (after_collect orders (collect results) w').wait_sec =
      ground (arith, found, some_open, delivered) in
    let is : (main_accrual_round pool w).wait_sec ≡ (collect results).wait_sec =
      waits ∙ after_collect-wait orders (collect results) w' longest.grows in
    let same : pos (pos_part (main_accrual_round pool w).wait_sec)
        ≡ (main_accrual_round pool w).wait_sec =
      pos_part-nonneg (main_accrual_round pool w).wait_sec
        (subst (λ n. pos 0 ≤ℤ n) (sym is) longest.grows) in
    (
      subst (IsLongest (pos 0) results) (sym is) longest,
      ap (λ n. sleep_cancellable (sleep_time (pos poll) n)) (sym same)
          ∙ sleep_time-range poll (pos_part (main_accrual_round pool w).wait_sec) small,
    )
