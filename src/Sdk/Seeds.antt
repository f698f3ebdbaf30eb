-- ===== src/Sdk/Seeds.antt =====
-- packages/theword-assets/src/utils.ts: the choice of the parts of a word from a block hash. The hash
-- keccak256 of the block hash and the id is a parameter, as the number that its text stands for.
pub mod Short
use theword_monorepo.Prelude.{
  ℕ, zero, suc, ◌+◌, ◌-◌, ◌*◌, ◌/◌, ◌%◌, ◌^◌, ◌<◌, ◌≢◌, ◌≡◌, refl, Bool, true, false, ◌&&◌, Option,
  none, some, List, [], ◌∷◌, ◌++◌, arith, ltb, leb, ◌==◌, if◌then◌else◌, length, drop, inl, inr,
  Option-cases,
}
use theword_monorepo.Sdk.Hex.{Text, hex_digits}
use theword_monorepo.Sdk.Svg.{digit_value}

pub record Seed : Type 0 where
  pub background : ℕ
  pub body : ℕ
  pub accessory : ℕ
  pub head : ℕ
  pub glasses : ℕ

-- What image-data.json has; the data of a part stands for its entry.
pub record Assets : Type 0 where
  pub bgcolors : List Text
  pub bodies : List Text
  pub accessories : List Text
  pub heads : List Text
  pub glasses : List Text

pub record TheWordData : Type 0 where
  pub parts : List (Option Text)
  pub background : Option Text

-- `none` is `undefined`.
abbrev pub at : List Text → ℕ → Option Text
at [] n = none
at (x ∷ xs) zero = some x
at (x ∷ xs) (suc n) = at xs n

abbrev pub get_theword_data : Assets → Seed → TheWordData
get_theword_data a s = record {
  parts =
      at a.bodies s.body
      ∷ at a.accessories s.accessory
      ∷ at a.heads s.head
      ∷ at a.glasses s.glasses
      ∷ [];
  background = at a.bgcolors s.background;
}

-- `toHexString` of a BigNumber: `0x` and an even number of digits.
unfoldable pub to_hex_string : ℕ → Text
to_hex_string n =
    let digits = hex_digits (n + 1) n in
    48 ∷ 120 ∷ (if length digits % 2 == 0 then digits else 48 ∷ digits)

-- `text.substring(length - count)`: a negative start counts as 0.
abbrev pub last_chars : ℕ → Text → Text
last_chars count text = drop (length text - count) text

unfoldable pub shift_right_and_cast : ℕ → ℕ → ℕ → Text
shift_right_and_cast value shift_amount uint_size =
    48 ∷ 120 ∷ last_chars (uint_size / 4) (to_hex_string (value / 2 ^ shift_amount))

-- The number of the digits, or `none` if one of the characters is no digit.
abbrev pub digits_number : ℕ → Text → Option ℕ
digits_number n [] = some n
digits_number n (d ∷ text) = elim (digit_value d) [
  | none ↦ none
  | some k ↦ digits_number (n * 16 + k) text
]

-- `BigNumber.from` on a text with the prefix `0x`; `none` is its exception.
unfoldable pub from_hex : Text → Option ℕ
from_hex (a ∷ b ∷ d ∷ text) = if (a == 48) && (b == 120) then digits_number 0 (d ∷ text) else none
from_hex _ = none

unfoldable pub get_pseudorandom_part : ℕ → ℕ → ℕ → ℕ → Option ℕ
get_pseudorandom_part pseudorandomness part_count shift_amount uint_size =
    elim (from_hex (shift_right_and_cast pseudorandomness shift_amount uint_size)) [
      | none ↦ none
      | some n ↦ if part_count == 0 then none else some (n % part_count)
    ]

-- `background` to `glasses`, from the hash of the block hash and the id; `none` is an exception.
unfoldable pub get_seed_from_block_hash : (Text → ℕ → ℕ) → Assets → ℕ → Text → Option Seed
get_seed_from_block_hash keccak256 a theword_id block_hash =
    let p = keccak256 block_hash theword_id in
    elim (get_pseudorandom_part p (length a.bgcolors) 0 48) [
      | none ↦ none
      | some background ↦ elim (get_pseudorandom_part p (length a.bodies) 48 48) [
        | none ↦ none
        | some body ↦ elim (get_pseudorandom_part p (length a.accessories) 96 48) [
          | none ↦ none
          | some accessory ↦ elim (get_pseudorandom_part p (length a.heads) 144 48) [
            | none ↦ none
            | some head ↦ elim (get_pseudorandom_part p (length a.glasses) 192 48) [
              | none ↦ none
              | some glasses ↦ some (record {
                background = background;
                body = body;
                accessory = accessory;
                head = head;
                glasses = glasses;
              })
            ]
          ]
        ]
      ]
    ]
