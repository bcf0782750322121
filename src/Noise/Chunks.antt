-- ===== src/Noise/Chunks.antt =====
-- `plaintext.chunks(n)`: consecutive pieces of at most `n` elements.
use sonotxt_rust.Base.{
  ℕ, suc, zero, ◌+◌, ◌*◌, ◌≤◌, ◌≡◌, refl, List, [], ◌∷◌, flatten, arith, length, take, drop,
  take-append-drop, length-take, length-drop, All,
}

module _ {ℓ} {A : Type ℓ} where
  -- Each round takes an element at least, so the length is fuel enough.
  chunks_fuel : ℕ → ℕ → List A → List (List A)
  chunks_fuel zero n xs = []
  chunks_fuel (suc fuel) n [] = []
  chunks_fuel (suc fuel) n (x ∷ xs) = take n (x ∷ xs) ∷ chunks_fuel fuel n (drop n (x ∷ xs))

  unfoldable pub chunks : ℕ → List A → List (List A)
  unfolding chunks_fuel
  chunks n xs = chunks_fuel (length xs) n xs

module _ {ℓ} {A : Type ℓ} (n : ℕ) where
  flatten-chunks_fuel :
      (fuel : ℕ) (xs : List A) → length xs ≤ fuel → flatten (chunks_fuel fuel (suc n) xs) ≡ xs
  unfolding chunks_fuel flatten
  flatten-chunks_fuel zero [] h = refl
  flatten-chunks_fuel zero (x ∷ xs) h = absurd (omega arith)
  flatten-chunks_fuel (suc fuel) [] h = refl
  flatten-chunks_fuel (suc fuel) (x ∷ xs) h =
      rw (flatten-chunks_fuel fuel (drop n xs) (omega (arith, length-drop n xs)))
        (take-append-drop (suc n) (x ∷ xs))

  pub flatten-chunks : (xs : List A) → flatten (chunks (suc n) xs) ≡ xs
  unfolding chunks
  flatten-chunks xs = flatten-chunks_fuel (length xs) xs (omega arith)

  All-chunks_fuel :
      (fuel : ℕ) (xs : List A) → All (λ c. length c ≤ suc n) (chunks_fuel fuel (suc n) xs)
  unfolding chunks_fuel
  All-chunks_fuel zero xs = tt
  All-chunks_fuel (suc fuel) [] = tt
  All-chunks_fuel (suc fuel) (x ∷ xs) =
      (omega (arith, length-take (suc n) (x ∷ xs)), All-chunks_fuel fuel (drop n xs))

  pub All-chunks : (xs : List A) → All (λ c. length c ≤ suc n) (chunks (suc n) xs)
  unfolding chunks
  All-chunks xs = All-chunks_fuel (length xs) xs

  -- There are no more chunks than the length asks for.
  length-chunks_fuel :
      (fuel : ℕ) (xs : List A) → length (chunks_fuel fuel (suc n) xs) * suc n ≤ length xs + n
  unfolding chunks_fuel
  length-chunks_fuel zero xs = omega arith
  length-chunks_fuel (suc fuel) [] = omega arith
  length-chunks_fuel (suc fuel) (x ∷ xs) =
      grind (arith, length-chunks_fuel fuel (drop n xs), length-drop n xs)

  pub length-chunks : (xs : List A) → length (chunks (suc n) xs) * suc n ≤ length xs + n
  unfolding chunks
  length-chunks xs = length-chunks_fuel (length xs) xs
