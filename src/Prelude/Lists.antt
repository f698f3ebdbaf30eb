-- ===== src/Prelude/Lists.antt =====
-- Lists measured and indexed by native numbers, under the library's names.
use Prim.Native.Nat.{ℕ, zero, suc, ◌+◌, ◌-◌, ◌≤◌}
use Prim.Native.String.{String}
use mathlib.Core.Path.{◌≡◌, refl, ap, ◌∙◌}
use mathlib.Core.Bool.{Bool, false, ◌||◌}
use mathlib.Core.List.{List, [], ◌∷◌, ◌++◌}
use native.Mathlib.Omega.{arith}
use text.Mathlib.Text.{◌==◌}
use theword_monorepo.Prelude.Tests.{if◌then◌else◌}

module _ {ℓ} {A : Type ℓ} where
  abbrev pub length : List A → ℕ
  length [] = 0
  length (x ∷ xs) = suc (length xs)

  abbrev pub take : ℕ → List A → List A
  take zero xs = []
  take (suc n) [] = []
  take (suc n) (x ∷ xs) = x ∷ take n xs

  abbrev pub drop : ℕ → List A → List A
  drop zero xs = xs
  drop (suc n) [] = []
  drop (suc n) (x ∷ xs) = drop n xs

  abbrev pub replicate : ℕ → A → List A
  replicate zero a = []
  replicate (suc n) a = a ∷ replicate n a

  pub length-append : (xs ys : List A) → length (xs ++ ys) ≡ length xs + length ys
  length-append [] ys = omega arith
  length-append (x ∷ xs) ys = omega (arith, length-append xs ys)

module _ {ℓ} {A : Type ℓ} where
  pub length-replicate : (n : ℕ) (a : A) → length (replicate n a) ≡ n
  length-replicate zero a = refl
  length-replicate (suc n) a = ap suc (length-replicate n a)

  pub take-zero : (xs : List A) → take 0 xs ≡ []
  take-zero [] = refl
  take-zero (x ∷ xs) = refl

  pub replicate-add : (n m : ℕ) (a : A) → replicate (n + m) a ≡ replicate n a ++ replicate m a
  replicate-add zero m a = ap (λ k. replicate k a) (omega arith)
  replicate-add (suc n) m a =
      let e : suc n + m ≡ suc (n + m) = omega arith in rw e (ap (λ t. a ∷ t) (replicate-add n m a))

  pub take-replicate-append :
      (n m : ℕ) (a : A) (xs : List A)
      → take (n + m) (replicate n a ++ xs) ≡ replicate n a ++ take m xs
  take-replicate-append zero m a xs = ap (λ k. take k xs) (omega arith)
  take-replicate-append (suc n) m a xs =
      let e : suc n + m ≡ suc (n + m) = omega arith in
      rw e (ap (λ t. a ∷ t) (take-replicate-append n m a xs))

  pub take-replicate : (n m : ℕ) (a : A) → take n (replicate (n + m) a) ≡ replicate n a
  take-replicate zero m a = take-zero (replicate (zero + m) a)
  take-replicate (suc n) m a =
      let e : suc n + m ≡ suc (n + m) = omega arith in rw e (ap (λ t. a ∷ t) (take-replicate n m a))

  pub drop-replicate-append :
      (k n : ℕ) (a : A) (xs : List A)
      → k ≤ n
      → drop k (replicate n a ++ xs) ≡ replicate (n - k) a ++ xs
  drop-replicate-append zero n a xs h = ap (λ m. replicate m a ++ xs) (omega arith)
  drop-replicate-append (suc k) zero a xs h = absurd (omega arith)
  drop-replicate-append (suc k) (suc n) a xs h =
      drop-replicate-append k n a xs (omega arith) ∙ ap (λ m. replicate m a ++ xs) (omega arith)

  pub take_all : (n : ℕ) (xs : List A) → length xs ≤ n → take n xs ≡ xs
  take_all zero [] h = refl
  take_all zero (x ∷ xs) h = absurd (omega arith)
  take_all (suc n) [] h = refl
  take_all (suc n) (x ∷ xs) h = ap (λ t. x ∷ t) (take_all n xs (omega arith))

-- `array.filter(test)`
abbrev pub filter {ℓ} : {A : Type ℓ} → (A → Bool) → List A → List A
filter p [] = []
filter p (x ∷ xs) = let rest = filter p xs in if p x then x ∷ rest else rest

-- What holds of every element.
abbrev pub All {ℓ κ} : {A : Type ℓ} → (A → Type κ) → List A → Type κ
All P [] = Unit
All P (x ∷ xs) = P x × All P xs

-- `array.includes(text)`
abbrev pub includes : List String → String → Bool
includes [] a = false
includes (x ∷ xs) a = (x == a) || includes xs a
