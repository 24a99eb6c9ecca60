-- ===== src/Accrual/Schedules.antt =====
-- A round of `mainAccrual` does not depend on the order in which the workers deliver their results.
use mathlib.Core.List.{Permᴰ}
use mathlib.Core.List.Permᴰ.{nil, cons, swap, trans}
use gomart.Prelude.{
  ℕ, ◌≡◌, ◌≢◌, refl, sym, ap, subst, ◌∙◌, Option, some, List, [], ◌∷◌, ◌==◌, if◌then◌else◌, ok,
  arith, All,
}
use gomart.Prelude.Int.{ℤ, pos, ltb_ℤ, int_laws}
use gomart.Store.{Order}
use gomart.Conn.{World}
use gomart.Service.{get_orders_for_process}
use gomart.Pool.{JobResult}
use gomart.Accrual.{
  Collected, put_order, get_order, has_no_error, collect_step, collect_from, collect,
  changed_orders, after_collect, main_accrual_round,
}

-- No order has two results.
abbrev pub AreDifferent : List JobResult → Type 0
AreDifferent [] = Unit
AreDifferent (r ∷ rs) = All (λ q. q.value.order_id ≢ r.value.order_id) rs × AreDifferent rs

-- The same map and the same wait.
record Same (c d : Collected) : Type 0 where
  found : (id : ℕ) → get_order id c.res_orders ≡ get_order id d.res_orders
  wait : c.wait_sec ≡ d.wait_sec

get_order-put_order :
    (id k : ℕ) (v : Order) (m : List (ℕ × Order))
    → get_order id (put_order k v m) ≡ (if k == id then some v else get_order id m)
get_order-put_order id k v [] = refl
get_order-put_order id k v ((j, u) ∷ m) = ground (arith, get_order-put_order id k v m)

-- One result, as it acts on what is found and on the wait.
found_step : ℕ → JobResult → Option Order → Option Order
found_step id res found =
    if has_no_error res
    then (if res.result == 200
        then (if res.value.order_id == id then some res.value else found)
        else found)
    else found

wait_step : JobResult → ℤ → ℤ
wait_step res wait =
    if has_no_error res
    then (if res.result == 200
        then wait
        else if res.result == 429
        then (if ltb_ℤ wait res.wait_sec then res.wait_sec else wait)
        else wait)
    else wait

get_order-collect_step :
    (id : ℕ) (c : Collected) (res : JobResult)
    → get_order id (collect_step c res).res_orders ≡ found_step id res (get_order id c.res_orders)
unfolding collect_step found_step
get_order-collect_step id c res =
    ground (arith, get_order-put_order id res.value.order_id res.value c.res_orders)

wait_sec-collect_step :
    (c : Collected) (res : JobResult) → (collect_step c res).wait_sec ≡ wait_step res c.wait_sec
unfolding collect_step wait_step
wait_sec-collect_step c res = ground arith

found_step_comm :
    (id : ℕ) (a b : JobResult) (found : Option Order)
    → a.value.order_id ≢ b.value.order_id
    → found_step id b (found_step id a found) ≡ found_step id a (found_step id b found)
unfolding found_step
found_step_comm id a b found n = ground arith

larger_comm :
    (w a b : ℤ)
    → (let v = if ltb_ℤ w a then a else w in if ltb_ℤ v b then b else v)
      ≡ (let v = if ltb_ℤ w b then b else w in if ltb_ℤ v a then a else v)
larger_comm w a b = grind int_laws

wait_step_comm :
    (a b : JobResult) (w : ℤ) → wait_step b (wait_step a w) ≡ wait_step a (wait_step b w)
unfolding wait_step
wait_step_comm a b w = ground (arith, larger_comm w a.wait_sec b.wait_sec)

collect_step-Same :
    (c d : Collected) (res : JobResult) → Same c d → Same (collect_step c res) (collect_step d res)
collect_step-Same c d res h = record {
  found = λ id.
      get_order-collect_step id c res
      ∙ ap (found_step id res) (h.found id)
      ∙ sym (get_order-collect_step id d res);
  wait =
      wait_sec-collect_step c res ∙ ap (wait_step res) h.wait ∙ sym (wait_sec-collect_step d res);
}

collect_step-Same_swap :
    (c d : Collected) (a b : JobResult)
    → b.value.order_id ≢ a.value.order_id
    → Same c d
    → Same (collect_step (collect_step c a) b) (collect_step (collect_step d b) a)
collect_step-Same_swap c d a b n h = record {
  found = λ id.
      get_order-collect_step id (collect_step c a) b
      ∙ ap (found_step id b) (get_order-collect_step id c a ∙ ap (found_step id a) (h.found id))
      ∙ found_step_comm id a b (get_order id d.res_orders) (λ e. n (sym e))
      ∙ sym (ap (found_step id a) (get_order-collect_step id d b))
      ∙ sym (get_order-collect_step id (collect_step d b) a);
  wait =
      wait_sec-collect_step (collect_step c a) b
      ∙ ap (wait_step b) (wait_sec-collect_step c a ∙ ap (wait_step a) h.wait)
      ∙ wait_step_comm a b d.wait_sec
      ∙ sym (ap (wait_step a) (wait_sec-collect_step d b))
      ∙ sym (wait_sec-collect_step (collect_step d b) a);
}

All-Permᴰ : (P : JobResult → Type 0) (xs ys : List JobResult) → Permᴰ xs ys → All P xs → All P ys
All-Permᴰ P _ _ nil h = tt
All-Permᴰ P _ _ (cons {a} {b} {l₁} {l₂} e p) h = (subst P e h.0, All-Permᴰ P l₁ l₂ p h.1)
All-Permᴰ P _ _ (swap e f) h = (subst P f h.1.0, (subst P e h.0, h.1.1))
All-Permᴰ P _ _ (trans {l₁} {l₂} {l₃} p q) h = All-Permᴰ P l₂ l₃ q (All-Permᴰ P l₁ l₂ p h)

abbrev Differs : JobResult → JobResult → Type 0
Differs r q = q.value.order_id ≢ r.value.order_id

AreDifferent-Permᴰ : (xs ys : List JobResult) → Permᴰ xs ys → AreDifferent xs → AreDifferent ys
AreDifferent-Permᴰ _ _ nil h = tt
AreDifferent-Permᴰ _ _ (cons {a} {b} {l₁} {l₂} e p) h = (
  subst (λ r. All (Differs r) l₂) e (All-Permᴰ (Differs a) l₁ l₂ p h.0),
  AreDifferent-Permᴰ l₁ l₂ p h.1,
)
AreDifferent-Permᴰ _ _ (swap {a} {b} {a'} {b'} {l} e f) h = (
  (
    (λ q. h.0.0 (sym (ap (λ r. r.value.order_id) e ∙ q ∙ sym (ap (λ r. r.value.order_id) f)))),
    subst (λ r. All (Differs r) l) f h.1.0,
  ),
  (subst (λ r. All (Differs r) l) e h.0.1, h.1.1),
)
AreDifferent-Permᴰ _ _ (trans {l₁} {l₂} {l₃} p q) h =
    AreDifferent-Permᴰ l₂ l₃ q (AreDifferent-Permᴰ l₁ l₂ p h)

collect_from-Same :
    (c d : Collected) (xs : List JobResult)
    → Same c d
    → Same (collect_from c xs) (collect_from d xs)
unfolding collect_from
collect_from-Same c d [] h = h
collect_from-Same c d (x ∷ xs) h =
    collect_from-Same (collect_step c x) (collect_step d x) xs (collect_step-Same c d x h)

Same-refl : (c : Collected) → Same c c
Same-refl c = record { found = λ id. refl; wait = refl }

collect_from-Permᴰ :
    (c d : Collected) (xs ys : List JobResult)
    → Permᴰ xs ys
    → AreDifferent xs
    → Same c d
    → Same (collect_from c xs) (collect_from d ys)
unfolding collect_from
collect_from-Permᴰ c d _ _ nil h s = s
collect_from-Permᴰ c d _ _ (cons {a} {b} {l₁} {l₂} e p) h s =
    subst (λ r. Same (collect_from (collect_step c a) l₁) (collect_from (collect_step d r) l₂)) e
      (collect_from-Permᴰ (collect_step c a) (collect_step d a) l₁ l₂ p h.1
        (collect_step-Same c d a s))
collect_from-Permᴰ c d _ _ (swap {a} {b} {a'} {b'} {l} e f) h s =
    subst
      (λ r.
        Same (collect_from (collect_step (collect_step c a) b) l)
          (collect_from (collect_step (collect_step d r) b') l))
      f
      (subst
        (λ r.
          Same (collect_from (collect_step (collect_step c a) b) l)
            (collect_from (collect_step (collect_step d b) r) l))
        e (collect_from-Same _ _ l (collect_step-Same_swap c d a b h.0.0 s)))
collect_from-Permᴰ c d _ _ (trans {l₁} {l₂} {l₃} p q) h s = record {
  found = λ id.
      (collect_from-Permᴰ c d l₁ l₂ p h s).found id
      ∙ (collect_from-Permᴰ d d l₂ l₃ q (AreDifferent-Permᴰ l₁ l₂ p h) (Same-refl d)).found id;
  wait =
      (collect_from-Permᴰ c d l₁ l₂ p h s).wait
      ∙ (collect_from-Permᴰ d d l₂ l₃ q (AreDifferent-Permᴰ l₁ l₂ p h) (Same-refl d)).wait;
}

changed_orders-Same :
    (c d : Collected) (os : List Order)
    → Same c d
    → changed_orders c.res_orders os ≡ changed_orders d.res_orders os
unfolding changed_orders
changed_orders-Same c d [] h = refl
changed_orders-Same c d (o ∷ os) h =
    ground (arith, h.found o.order_id, changed_orders-Same c d os h)

after_collect-Same :
    (orders : List Order) (c d : Collected) (w : World)
    → Same c d
    → after_collect orders c w ≡ after_collect orders d w
unfolding after_collect
after_collect-Same orders c d w h = rw (changed_orders-Same c d orders h, h.wait) refl

-- If two pools deliver for the orders of a round the same results in another order, and for each order
-- at most one, then the round waits as long, and leaves the same world.
pub main_accrual_round-Permᴰ :
    (pool pool' : List Order → Option (List JobResult)) (w : World) (orders : List Order)
    (results results' : List JobResult)
    → (get_orders_for_process w).0 ≡ ok orders
    → pool orders ≡ some results
    → pool' orders ≡ some results'
    → Permᴰ results results'
    → AreDifferent results
    → main_accrual_round pool w ≡ main_accrual_round pool' w
unfolding main_accrual_round collect
main_accrual_round-Permᴰ pool pool' w orders results results' e p p' perm h =
    let start : Collected = record { res_orders = []; wait_sec = pos 0 } in
    let same = collect_from-Permᴰ start start results results' perm h (Same-refl start) in
    ground (
      arith,
      after_collect-Same orders (collect results) (collect results') (get_orders_for_process w).1
          same,
    )
