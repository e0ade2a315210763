-- ===== src/Base/Chunks.antt =====
-- slices.Chunk: consecutive pieces of at most `n` elements, and its laws.
use Prim.Native.Nat.{ℕ, zero, suc, ◌≤◌, ◌<◌}
use mathlib.Core.Path.{◌≡◌, refl, ap, ◌∙◌}
use mathlib.Core.List.{List, [], ◌∷◌, ◌++◌}
use native.Mathlib.Omega.{arith}
use pinsync.Base.Lists.{length, take, drop, All, length-take, length-drop, take-append-drop}

module _ {ℓ} {A : Type ℓ} where
  -- The fuel is the length of the list: every piece takes one element at least.
  unfoldable pub chunks_fuel : ℕ → ℕ → List A → List (List A)
  chunks_fuel zero n xs = []
  chunks_fuel (suc fuel) n [] = []
  chunks_fuel (suc fuel) n (x ∷ xs) = take n (x ∷ xs) ∷ chunks_fuel fuel n (drop n (x ∷ xs))

  unfoldable pub chunks : ℕ → List A → List (List A)
  unfolding chunks_fuel
  chunks n xs = chunks_fuel (length xs) n xs

  unfoldable pub concat : List (List A) → List A
  concat [] = []
  concat (x ∷ xs) = x ++ concat xs

  concat-chunks_fuel :
      (fuel n : ℕ) (xs : List A) → length xs ≤ fuel → 0 < n → concat (chunks_fuel fuel n xs) ≡ xs
  unfolding concat chunks_fuel
  concat-chunks_fuel zero n [] h p = refl
  concat-chunks_fuel zero n (x ∷ xs) h p = absurd (omega arith)
  concat-chunks_fuel (suc fuel) n [] h p = refl
  concat-chunks_fuel (suc fuel) n (x ∷ xs) h p =
      ap (λ r. take n (x ∷ xs) ++ r)
        (concat-chunks_fuel fuel n (drop n (x ∷ xs)) (omega (arith, length-drop n (x ∷ xs))) p)
      ∙ take-append-drop n (x ∷ xs)

  -- The pieces make up the list.
  pub concat-chunks : (n : ℕ) (xs : List A) → 0 < n → concat (chunks n xs) ≡ xs
  unfolding chunks
  concat-chunks n xs p = concat-chunks_fuel (length xs) n xs (omega arith) p

  chunks_fuel_small : (fuel n : ℕ) (xs : List A) → All (λ c. length c ≤ n) (chunks_fuel fuel n xs)
  unfolding chunks_fuel
  chunks_fuel_small zero n xs = tt
  chunks_fuel_small (suc fuel) n [] = tt
  chunks_fuel_small (suc fuel) n (x ∷ xs) =
      (omega (arith, length-take n (x ∷ xs)), chunks_fuel_small fuel n (drop n (x ∷ xs)))

  -- No piece is longer than `n`.
  pub chunks_small : (n : ℕ) (xs : List A) → All (λ c. length c ≤ n) (chunks n xs)
  unfolding chunks
  chunks_small n xs = chunks_fuel_small (length xs) n xs
