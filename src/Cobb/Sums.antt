-- ===== src/Cobb/Sums.antt =====
-- result-chart.component.ts: the sums that the line of the chart shows.
use testbench.Common.{
  ℕ, zero, suc, ◌≡◌, refl, some, List, [], ◌∷◌, ◌++◌, length, get_elem?, arith, ap, sym, ◌∙◌, ◌<◌,
}

-- The sums of `getEcoDigitScoresCumulative`, for numbers that are added by `plus`: each score is
-- added to the last sum, and the sum is appended.
module _ {N : Type 0} (plus : N → N → N) where
  reduce_from : N → List N → List N → List N
  reduce_from sum cumulative [] = cumulative
  reduce_from sum cumulative (current ∷ scores) =
      let new_sum = plus sum current in reduce_from new_sum (cumulative ++ new_sum ∷ []) scores

  unfoldable pub cumulative : N → List N → List N
  unfolding reduce_from
  cumulative start scores = reduce_from start [] scores

  -- The sum of the first scores.
  abbrev pub total : N → List N → N
  total sum [] = sum
  total sum (x ∷ xs) = total (plus sum x) xs

  abbrev pub take : ℕ → List N → List N
  take zero xs = []
  take (suc n) [] = []
  take (suc n) (x ∷ xs) = x ∷ take n xs

  abbrev sums : N → List N → List N
  sums sum [] = []
  sums sum (x ∷ xs) = plus sum x ∷ sums (plus sum x) xs

  append-cons : (xs : List N) (y : N) (zs : List N) → (xs ++ y ∷ []) ++ zs ≡ xs ++ y ∷ zs
  append-cons [] y zs = refl
  append-cons (x ∷ xs) y zs = ap (λ r. x ∷ r) (append-cons xs y zs)

  append-nil : (xs : List N) → xs ++ [] ≡ xs
  append-nil [] = refl
  append-nil (x ∷ xs) = ap (λ r. x ∷ r) (append-nil xs)

  reduce_from-sums :
      (sum : N) (acc scores : List N) → reduce_from sum acc scores ≡ acc ++ sums sum scores
  unfolding reduce_from
  reduce_from-sums sum acc [] = sym (append-nil acc)
  reduce_from-sums sum acc (x ∷ xs) =
      reduce_from-sums (plus sum x) (acc ++ plus sum x ∷ []) xs
      ∙ append-cons acc (plus sum x) (sums (plus sum x) xs)

  sums-at :
      (sum : N) (scores : List N) (i : ℕ)
      → i < length scores
      → get_elem? (sums sum scores) i ≡ some (total sum (take (suc i) scores))
  sums-at sum [] i b = absurd (omega (arith, b))
  sums-at sum (x ∷ xs) zero b = refl
  sums-at sum (x ∷ xs) (suc i) b = sums-at (plus sum x) xs i (omega (arith, b))

  length-sums : (sum : N) (scores : List N) → length (sums sum scores) ≡ length scores
  length-sums sum [] = refl
  length-sums sum (x ∷ xs) = ap suc (length-sums (plus sum x) xs)

  -- The i-th point of the line is the sum of the scores up to the i-th, and there is one for each.
  pub cumulative-prefix_sums :
      (start : N) (scores : List N)
      → (length (cumulative start scores) ≡ length scores)
        × ((i : ℕ)
            → i < length scores
            → get_elem? (cumulative start scores) i ≡ some (total start (take (suc i) scores)))
  unfolding cumulative
  cumulative-prefix_sums start scores = (
    ap length (reduce_from-sums start [] scores) ∙ length-sums start scores,
    λ i b. ap (λ xs. get_elem? xs i) (reduce_from-sums start [] scores) ∙ sums-at start scores i b,
  )
