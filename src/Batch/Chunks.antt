-- ===== src/Batch/Chunks.antt =====
-- The batches hold each order once, in the order of the slice.
use mathlib.Core.List.{flatten}
use gomart.Prelude.{
  ℕ, zero, suc, ◌+◌, ◌-◌, ◌≤◌, ◌<◌, ◌≡◌, refl, sym, ap, ◌∙◌, inl, inr, List, [], ◌∷◌, ◌++◌, length,
  take, drop, ltb, if◌then◌else◌, arith, Bool-cases,
}
use gomart.Store.{Order}
use gomart.Batch.{chunks, first_limit}

module _ {ℓ} {A : Type ℓ} where
  take-append-drop : (n : ℕ) (xs : List A) → take n xs ++ drop n xs ≡ xs
  take-append-drop zero xs = refl
  take-append-drop (suc n) [] = refl
  take-append-drop (suc n) (x ∷ xs) = ap (λ l. x ∷ l) (take-append-drop n xs)

  drop-nil : (k : ℕ) → drop k (let xs : List A = [] in xs) ≡ []
  drop-nil zero = refl
  drop-nil (suc k) = refl

  drop-drop : (m n k : ℕ) (xs : List A) → k ≡ m + n → drop n (drop m xs) ≡ drop k xs
  drop-drop zero n k xs e = ap (λ i. drop i xs) (omega arith)
  drop-drop (suc m) n k [] e = drop-nil n ∙ sym (drop-nil k)
  drop-drop (suc m) n zero (x ∷ xs) e = absurd (omega arith)
  drop-drop (suc m) n (suc k) (x ∷ xs) e = drop-drop m n k xs (omega arith)

  drop_all : (n : ℕ) (xs : List A) → length xs ≤ n → drop n xs ≡ []
  drop_all zero [] h = refl
  drop_all zero (x ∷ xs) h = absurd (omega arith)
  drop_all (suc n) [] h = refl
  drop_all (suc n) (x ∷ xs) h = drop_all n xs (omega arith)

flatten-chunks_from :
    (fuel limit : ℕ) (orders : List Order) (index : ℕ)
    → length orders ≤ fuel + index
    → 0 < limit
    → flatten (chunks fuel limit orders index) ≡ drop index orders
unfolding chunks flatten
flatten-chunks_from zero limit orders index h p = sym (drop_all index orders (omega arith))
flatten-chunks_from (suc fuel) limit orders index h p =
    elim (Bool-cases (ltb index (length orders))) [
      | inr past ↦ rw past (sym (drop_all index orders (ground arith)))
      | inl inside ↦
          let limit' =
            if ltb (length orders) (index + limit) then length orders - index else limit in
          let progress : 0 < limit' = ground arith in
          let batch = take limit' (drop index orders) in
          rw inside (
            ap (λ l. batch ++ l)
              (flatten-chunks_from fuel limit' orders (index + limit') (omega arith) progress
                ∙ sym (drop-drop index limit' (index + limit') orders refl))
            ∙ take-append-drop limit' (drop index orders))
    ]

-- Whatever the limit, the batches together are the orders, in their order.
pub flatten-chunks :
    (limitbatch : ℕ) (orders : List Order)
    → flatten (chunks (length orders) (first_limit limitbatch (length orders)) orders 0) ≡ orders
unfolding first_limit chunks flatten
flatten-chunks limitbatch [] = refl
flatten-chunks limitbatch (o ∷ os) =
    flatten-chunks_from (length (o ∷ os)) (first_limit limitbatch (length (o ∷ os))) (o ∷ os) 0
      (omega arith) (ground arith)
