-- ===== src/Sdk/Svg/Decode.antt =====
-- The decoding of what the encoder writes.
use theword_monorepo.Prelude.{
  ℕ, ◌/◌, ◌%◌, ◌<◌, ◌≡◌, refl, ap, Bool, true, false, Option, none, some, List, [], ◌∷◌, ◌++◌, map,
  arith, ◌==◌, all_below, of_all_below, ==_iff,
}
use theword_monorepo.Prelude.Int.{ℤ, pos, negsuc}
use theword_monorepo.Sdk.Hex.{hex_digit, to_padded_hex_byte}
use theword_monorepo.Sdk.Image.{ImageBounds, pairs_to_hex, to_byte, get_encoded_bounds}
use theword_monorepo.Sdk.Svg.{RectPair, parse_int, decode_rects, decode_image}

to_byte_bound : (n : ℤ) → to_byte n < 256
to_byte_bound (pos n) = omega arith
to_byte_bound (negsuc n) = omega arith

-- `o` is the number `n`.
abbrev is_number : Option ℕ → ℕ → Bool
is_number none n = false
is_number (some m) n = m == n

is_number-eq : (o : Option ℕ) (n : ℕ) → is_number o n ≡ true → o ≡ some n
is_number-eq none n h = ground arith
is_number-eq (some m) n h = ap some ((==_iff m n).0 h)

bytes_are_read :
    all_below 256 (λ n. is_number (parse_int (hex_digit (n / 16) ∷ hex_digit (n % 16) ∷ [])) n)
    ≡ true
unfolding all_below
bytes_are_read = refl

parse_int-byte :
    (n : ℕ) → n < 256 → parse_int (hex_digit (n / 16) ∷ hex_digit (n % 16) ∷ []) ≡ some n
parse_int-byte n h = is_number-eq _ n (
    of_all_below 256 (λ m. is_number (parse_int (hex_digit (m / 16) ∷ hex_digit (m % 16) ∷ [])) m) n
      bytes_are_read h)

-- The bytes that the encoder writes for a pair.
abbrev pub to_bytes : ℤ × ℕ → RectPair
to_bytes (n, c) = (to_byte n, c % 256)

-- Decoding the text that the encoder writes for a list of pairs gives their bytes back: every length
-- and every colour index modulo 256, in order.
pub decode_rects-pairs_to_hex :
    (pairs : List (ℤ × ℕ)) → decode_rects (pairs_to_hex pairs) ≡ some (map to_bytes pairs)
unfolding decode_rects pairs_to_hex
decode_rects-pairs_to_hex [] = refl
decode_rects-pairs_to_hex ((n, c) ∷ pairs) =
    rw
      (to_padded_hex_byte (to_byte n) (to_byte_bound n), to_padded_hex_byte (c % 256) (omega arith))
      (rw
        (
          parse_int-byte (to_byte n) (to_byte_bound n),
          parse_int-byte (c % 256) (omega arith),
          decode_rects-pairs_to_hex pairs,
        )
        refl)

-- For bounds below 256, decoding the text of the bounds and the rows that the encoder writes gives
-- palette 0, the same bounds, and the bytes of the pairs.
pub decode_image-encoded :
    (b : ImageBounds) (pairs : List (ℤ × ℕ))
    → b.top < 256
    → b.right < 256
    → b.bottom < 256
    → b.left < 256
    → decode_image (get_encoded_bounds b ++ pairs_to_hex pairs)
      ≡ some (record { palette_index = 0; bounds = b; rects = map to_bytes pairs })
unfolding decode_image get_encoded_bounds
decode_image-encoded b pairs t r o l =
    rw
      (
        to_padded_hex_byte b.top t,
        to_padded_hex_byte b.right r,
        to_padded_hex_byte b.bottom o,
        to_padded_hex_byte b.left l,
      )
      (rw
        (
          parse_int-byte b.top t,
          parse_int-byte b.right r,
          parse_int-byte b.bottom o,
          parse_int-byte b.left l,
          decode_rects-pairs_to_hex pairs,
        )
        refl)
