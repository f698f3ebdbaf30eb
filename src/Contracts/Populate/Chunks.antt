-- ===== src/Contracts/Populate/Chunks.antt =====
-- The chunks of an array (utils.ts).
use theword_monorepo.Prelude.{
  ℕ, zero, suc, ◌+◌, ◌≤◌, ◌<◌, ◌≡◌, refl, sym, ap, ◌∙◌, List, [], ◌∷◌, ◌++◌, inl, inr, Bool-cases,
  ltb, length, take, drop, All, arith,
}
use theword_monorepo.Contracts.Populate.{chunks_from, chunk_array}

module _ {ℓ} {A : Type ℓ} where
  abbrev pub joined : List (List A) → List A
  joined [] = []
  joined (chunk ∷ chunks) = chunk ++ joined chunks

  take-append-drop : (n : ℕ) (xs : List A) → take n xs ++ drop n xs ≡ xs
  take-append-drop zero xs = refl
  take-append-drop (suc n) [] = refl
  take-append-drop (suc n) (x ∷ xs) = ap (λ t. x ∷ t) (take-append-drop n xs)

  drop_all : (i : ℕ) (xs : List A) → length xs ≤ i → drop i xs ≡ []
  drop_all zero [] h = refl
  drop_all zero (x ∷ xs) h = absurd (omega arith)
  drop_all (suc i) [] h = refl
  drop_all (suc i) (x ∷ xs) h = drop_all i xs (omega arith)

  drop-drop : (i n : ℕ) (xs : List A) → drop n (drop i xs) ≡ drop (i + n) xs
  drop-drop zero n xs = ap (λ k. drop k xs) (omega arith)
  drop-drop (suc i) n [] = drop_all n [] (omega arith) ∙ sym (drop_all (suc i + n) [] (omega arith))
  drop-drop (suc i) n (x ∷ xs) =
      let e : suc i + n ≡ suc (i + n) = omega arith in rw e (drop-drop i n xs)

  drop_below : (i : ℕ) (xs : List A) → i < length xs → 0 < length (drop i xs)
  drop_below zero xs h = h
  drop_below (suc i) [] h = absurd (omega arith)
  drop_below (suc i) (x ∷ xs) h = drop_below i xs (omega arith)

  length-take : (n : ℕ) (xs : List A) → length (take n xs) ≤ n
  length-take zero xs = omega arith
  length-take (suc n) [] = omega arith
  length-take (suc n) (x ∷ xs) = omega (arith, length-take n xs)

  take_some : (n : ℕ) (xs : List A) → 0 < n → 0 < length xs → 0 < length (take n xs)
  take_some zero xs h k = absurd (omega arith)
  take_some (suc n) [] h k = absurd (omega arith)
  take_some (suc n) (x ∷ xs) h k = omega arith

  chunks_from-joined :
      (fuel i size : ℕ) (xs : List A)
      → 0 < size
      → length xs ≤ i + fuel
      → joined (chunks_from fuel i size xs) ≡ drop i xs
  unfolding chunks_from
  chunks_from-joined zero i size xs h k = sym (drop_all i xs (omega arith))
  chunks_from-joined (suc fuel) i size xs h k = elim (Bool-cases (ltb i (length xs))) [
    | inl e ↦ rw e (
        ap (λ t. take size (drop i xs) ++ t)
          (chunks_from-joined fuel (i + size) size xs h (omega arith) ∙ sym (drop-drop i size xs))
        ∙ take-append-drop size (drop i xs))
    | inr e ↦ rw e (sym (drop_all i xs (ground arith)))
  ]

  -- With a positive size the chunks of an array, put together, are the array.
  pub chunk_array-joined : (xs : List A) (size : ℕ) → 0 < size → joined (chunk_array xs size) ≡ xs
  unfolding chunk_array
  chunk_array-joined xs size h = chunks_from-joined (length xs) 0 size xs h (omega arith)

  pub IsChunk : ℕ → List A → Type 0
  IsChunk size chunk = (0 < length chunk) × (length chunk ≤ size)

  chunks_from-IsChunk :
      (fuel i size : ℕ) (xs : List A) → 0 < size → All (IsChunk size) (chunks_from fuel i size xs)
  unfolding chunks_from IsChunk
  chunks_from-IsChunk zero i size xs h = tt
  chunks_from-IsChunk (suc fuel) i size xs h = elim (Bool-cases (ltb i (length xs))) [
    | inl e ↦ rw e (
      (take_some size (drop i xs) h (drop_below i xs (ground arith)), length-take size (drop i xs)),
      chunks_from-IsChunk fuel (i + size) size xs h,
    )
    | inr e ↦ rw e tt
  ]

  -- No chunk is empty, and none is longer than the size.
  pub chunk_array-IsChunk :
      (xs : List A) (size : ℕ) → 0 < size → All (IsChunk size) (chunk_array xs size)
  unfolding chunk_array
  chunk_array-IsChunk xs size h = chunks_from-IsChunk (length xs) 0 size xs h
