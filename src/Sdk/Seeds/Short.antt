-- ===== src/Sdk/Seeds/Short.antt =====
-- The numbers whose digits are too few.
use theword_monorepo.Prelude.{
  ℕ, zero, suc, ◌+◌, ◌*◌, ◌/◌, ◌%◌, ◌^◌, ◌<◌, ◌≤◌, ◌≡◌, refl, true, none, [], ◌∷◌, arith, ltb, ◌==◌,
  if◌then◌else◌, length, drop, inl, inr, Bool-cases, length-append, ap,
}
use theword_monorepo.Sdk.Hex.{Text, hex_digits, hex_digit}
use theword_monorepo.Sdk.Seeds.{
  to_hex_string, last_chars, shift_right_and_cast, from_hex, get_pseudorandom_part,
}

abbrev power_16 : ℕ → ℕ
power_16 zero = 1
power_16 (suc n) = 16 * power_16 n

length-hex_digits :
    (fuel n digits : ℕ) → n < 16 * power_16 digits → length (hex_digits fuel n) ≤ suc digits
unfolding hex_digits
length-hex_digits zero n digits h = omega arith
length-hex_digits (suc fuel) n zero h =
    let less : ltb n 16 ≡ true = ground arith in rw (less, hex_digits) (omega arith)
length-hex_digits (suc fuel) n (suc digits) h =
    let m = power_16 digits in
    let rest = length-hex_digits fuel (n / 16) digits (omega arith) in
    elim (Bool-cases (ltb n 16)) [
      | inl less ↦ rw (less, hex_digits) (omega arith)
      | inr more ↦
          rw (more, hex_digits)
            (rw (length-append (hex_digits fuel (n / 16)) (hex_digit (n % 16) ∷ []))
              (omega (arith, rest)))
    ]

drop_zero : (text : Text) (n : ℕ) → n ≡ 0 → drop n text ≡ text
drop_zero text n h = rw h refl

abbrev even : Text → Text
even digits = if length digits % 2 == 0 then digits else 48 ∷ digits

length-even : (digits : Text) → length digits ≤ 10 → length (even digits) ≤ 10
length-even digits h = elim (Bool-cases (length digits % 2 == 0)) [
  | inl e ↦ rw e h
  | inr o ↦ rw o (ground arith)
]

from_hex_twice : (text : Text) → from_hex (48 ∷ 120 ∷ 48 ∷ 120 ∷ text) ≡ none
unfolding from_hex
from_hex_twice text = refl

last_chars_all :
    (text : Text) → length text ≤ 10 → last_chars 12 (48 ∷ 120 ∷ text) ≡ 48 ∷ 120 ∷ text
last_chars_all text h = drop_zero (48 ∷ 120 ∷ text) _ (omega arith)

abbrev digits_of : ℕ → Text
digits_of n = even (hex_digits (n + 1) n)

shift_right_and_cast_short :
    (p shift : ℕ)
    → p / 2 ^ shift < 2 ^ 40
    → shift_right_and_cast p shift 48 ≡ 48 ∷ 120 ∷ 48 ∷ 120 ∷ digits_of (p / 2 ^ shift)
unfolding shift_right_and_cast to_hex_string
shift_right_and_cast_short p shift h =
    let n = p / 2 ^ shift in
    let few = length-hex_digits (n + 1) n 9 h in
    ap (λ t. 48 ∷ 120 ∷ t) (last_chars_all (digits_of n) (length-even (hex_digits (n + 1) n) few))

-- If the number that is left after the shift is below 2^40, and so has at most ten hexadecimal digits,
-- the choice of a part by 48 bits raises an exception.
pub short_number_fails :
    (p count shift : ℕ) → p / 2 ^ shift < 2 ^ 40 → get_pseudorandom_part p count shift 48 ≡ none
unfolding get_pseudorandom_part
short_number_fails p count shift h =
    rw
      (
        get_pseudorandom_part,
        shift_right_and_cast_short p shift h,
        from_hex_twice (digits_of (p / 2 ^ shift)),
      )
      refl
