-- ===== src/Sdk/Hex.antt =====
-- utils.ts, and what the encoder takes from JavaScript to write numbers in base 16. A text is the
-- list of its character codes.
use theword_monorepo.Prelude.{
  ℕ, zero, suc, ◌+◌, ◌-◌, ◌/◌, ◌%◌, ◌<◌, ◌≡◌, refl, ◌↔◌, Bool, true, false, ◌&&◌, List, [], ◌∷◌,
  ◌++◌, arith, ltb, ◌==◌, if◌then◌else◌, length, replicate, all_below, of_all_below,
}

abbrev pub Text : Type 0
Text = List ℕ

-- `0` to `9`, `a` to `f`
abbrev pub hex_digit : ℕ → ℕ
hex_digit d = if ltb d 10 then d + 48 else d + 87

-- The digits of `c.toString(16)`, with fuel; there are at most as many as the fuel `c + 1` allows.
unfoldable pub hex_digits : ℕ → ℕ → Text
hex_digits zero c = []
hex_digits (suc fuel) c =
    let more = hex_digits fuel (c / 16) ++ hex_digit (c % 16) ∷ [] in
    if ltb c 16 then hex_digit c ∷ [] else more

-- `text.padStart(width, '0')`
unfoldable pub pad_start : ℕ → Text → Text
pad_start width text = replicate (width - length text) 48 ++ text

unfoldable pub to_padded_hex : ℕ → ℕ → Text
unfolding hex_digits pad_start
to_padded_hex c pad = pad_start pad (hex_digits (c + 1) c)

unfoldable pub rgb_to_hex : ℕ → ℕ → ℕ → Text
unfolding to_padded_hex
rgb_to_hex r g b = to_padded_hex r 2 ++ to_padded_hex g 2 ++ to_padded_hex b 2

-- The equality of texts.
unfoldable pub text_eq : Text → Text → Bool
text_eq [] [] = true
text_eq (c ∷ s) (d ∷ t) = (c == d) && text_eq s t
text_eq _ _ = false

pub text_eq_iff : (s t : Text) → (text_eq s t ≡ true) ↔ (s ≡ t)
unfolding text_eq
text_eq_iff [] [] = ground arith
text_eq_iff [] (d ∷ t) = ground arith
text_eq_iff (c ∷ s) [] = ground arith
text_eq_iff (c ∷ s) (d ∷ t) = ground (arith, text_eq_iff s t)

bytes_are_padded :
    all_below 256 (λ n. text_eq (to_padded_hex n 2) (hex_digit (n / 16) ∷ hex_digit (n % 16) ∷ []))
    ≡ true
unfolding to_padded_hex text_eq all_below
bytes_are_padded = refl

-- A byte is written with its two digits.
pub to_padded_hex_byte :
    (c : ℕ) → c < 256 → to_padded_hex c 2 ≡ hex_digit (c / 16) ∷ hex_digit (c % 16) ∷ []
to_padded_hex_byte c h = (text_eq_iff _ _).0 (
    of_all_below 256
      (λ n. text_eq (to_padded_hex n 2) (hex_digit (n / 16) ∷ hex_digit (n % 16) ∷ [])) c
      bytes_are_padded h)

-- `parseInt(pair, 16)` on one digit, as `toString` writes it.
abbrev pub hex_value : ℕ → ℕ
hex_value d = if ltb d 58 then d - 48 else d - 87

pub hex_value-hex_digit : (d : ℕ) → d < 16 → hex_value (hex_digit d) ≡ d
hex_value-hex_digit d h = ground arith
