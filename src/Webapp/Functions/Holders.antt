-- ===== src/Webapp/Functions/Holders.antt =====
-- theGraph.ts: who owns a word, and to whom one is delegated.
use theword_monorepo.Prelude.{
  ℕ, ◌≡◌, refl, ap, String, Bool, false, ◌||◌, Option, none, some, List, [], ◌∷◌, arith, ◌==◌,
  if◌then◌else◌, inl, inr, Bool-cases, All, str_eq,
}
use theword_monorepo.Webapp.Functions.{
  NormalizedTheWord, filter_words, is_nonempty, big_numbers_equal, owner_test, delegate_from,
  delegate_test, is_the_word_owner, is_the_word_delegate,
}

-- Some word passes the test.
abbrev pub any_word : (NormalizedTheWord → Bool) → List NormalizedTheWord → Bool
any_word p [] = false
any_word p (w ∷ theword) = p w || any_word p theword

filter_words-nonempty :
    (test : NormalizedTheWord → Option Bool) (p : NormalizedTheWord → Bool)
    (theword : List NormalizedTheWord)
    → All (λ w. test w ≡ some (p w)) theword
    → (kept : List NormalizedTheWord) × ((filter_words test theword ≡ some kept)
        × (is_nonempty kept ≡ any_word p theword))
unfolding filter_words
filter_words-nonempty test p [] h = ([], (refl, refl))
filter_words-nonempty test p (w ∷ theword) (h, rest) =
    let (kept, (e, n)) = filter_words-nonempty test p theword rest in
    (
      if p w then w ∷ kept else kept,
      (
        rw (h, e) refl,
        elim (Bool-cases (p w)) [ inl keep ↦ rw keep (ground arith) | inr out ↦ rw out n ],
      ),
    )

module _ (big_number : String → Option ℕ) where
  -- The texts stand for the same number; a text that stands for none is like no other.
  abbrev pub same_number : ℕ → String → Bool
  same_number n b = elim (big_number b) [ none ↦ false | some m ↦ n == m ]

  -- A number, as `BigNumber.from` reads it.
  abbrev pub IsNumber : String → Type 0
  IsNumber a = (n : ℕ) × (big_number a ≡ some n)

  -- No delegate, or one that is a number.
  abbrev pub HasDelegate : Option String → Type 0
  HasDelegate none = Unit
  HasDelegate (some d) = IsNumber d

  abbrev pub delegated_to : ℕ → Option String → Bool
  delegated_to n none = false
  delegated_to n (some d) = if str_eq d "" then false else same_number n d

  big_numbers_equal-same :
      (a b : String) (n : ℕ)
      → big_number a ≡ some n
      → IsNumber b
      → big_numbers_equal big_number a b ≡ some (same_number n b)
  unfolding big_numbers_equal
  big_numbers_equal-same a b n e (m, k) = rw (e, k, same_number) refl

  delegate_test-from :
      (address : String) (n : ℕ) (o : Option String)
      → big_number address ≡ some n
      → HasDelegate o
      → delegate_from big_number address o ≡ some (delegated_to n o)
  delegate_test-from address n none a h = refl
  delegate_test-from address n (some d) a h = elim (Bool-cases (str_eq d "")) [
    | inl empty ↦ rw empty refl
    | inr there ↦ rw (there, big_numbers_equal-same address d n a h) refl
  ]

  All-owner :
      (address : String) (n : ℕ) (theword : List NormalizedTheWord)
      → big_number address ≡ some n
      → All (λ w. IsNumber w.owner) theword
      → All (λ w. owner_test big_number address w ≡ some (same_number n w.owner)) theword
  All-owner address n [] a h = tt
  All-owner address n (w ∷ theword) a (h, rest) =
      (big_numbers_equal-same address w.owner n a h, All-owner address n theword a rest)

  All-delegate :
      (address : String) (n : ℕ) (theword : List NormalizedTheWord)
      → big_number address ≡ some n
      → All (λ w. HasDelegate w.delegated_to) theword
      → All (λ w. delegate_test big_number address w ≡ some (delegated_to n w.delegated_to)) theword
  All-delegate address n [] a h = tt
  All-delegate address n (w ∷ theword) a (h, rest) =
      (delegate_test-from address n w.delegated_to a h, All-delegate address n theword a rest)

  -- If the address, all owners and all delegates are numbers, the functions answer: the first says
  -- whether the owner of some word is the number of the address, the second whether the delegate of
  -- some word is.
  pub holders_answer :
      (address : String) (n : ℕ) (theword : List NormalizedTheWord)
      → big_number address ≡ some n
      → All (λ w. IsNumber w.owner) theword
      → All (λ w. HasDelegate w.delegated_to) theword
      → (is_the_word_owner big_number address theword
          ≡ some (any_word (λ w. same_number n w.owner) theword))
        × (is_the_word_delegate big_number address theword
            ≡ some (any_word (λ w. delegated_to n w.delegated_to) theword))
  unfolding is_the_word_owner is_the_word_delegate
  holders_answer address n theword a h k =
      let (kept, (e, b)) =
        filter_words-nonempty (owner_test big_number address) (λ w. same_number n w.owner) theword
          (All-owner address n theword a h) in
      let (kept', (e', b')) =
        filter_words-nonempty (delegate_test big_number address)
          (λ w. delegated_to n w.delegated_to) theword (All-delegate address n theword a k) in
      (rw e (ap some b), rw e' (ap some b'))
