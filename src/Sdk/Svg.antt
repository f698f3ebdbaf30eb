-- ===== src/Sdk/Svg.antt =====
-- svg-builder.ts: the decoding of the run-length text, and the rectangles that it draws. The SVG is
-- kept as the data of its elements; a text is a list of character codes.
pub mod Decode
pub mod Rows
use theword_monorepo.Prelude.{
  ℕ, zero, suc, ◌+◌, ◌-◌, ◌*◌, Bool, true, false, ◌&&◌, Option, none, some, List, [], ◌∷◌, ◌++◌,
  ltb, leb, ◌==◌, if◌then◌else◌, take, drop,
}
use theword_monorepo.Sdk.Hex.{Text}
use theword_monorepo.Sdk.Image.{ImageBounds}

infixl 20 ◌>>=◌
abbrev ◌>>=◌ {ℓ κ} : {A : Type ℓ} {B : Type κ} → Option A → (A → Option B) → Option B
none >>= f = none
some a >>= f = f a

-- The value of a hexadecimal digit, of either case.
abbrev pub digit_value : ℕ → Option ℕ
digit_value d =
    if leb 48 d && ltb d 58
    then some (d - 48)
    else if leb 97 d && ltb d 103
    then some (d - 87)
    else if leb 65 d && ltb d 71
    then some (d - 55)
    else none

-- The digits read so far, and those that follow up to the first other character.
abbrev pub read_digits : ℕ → Text → ℕ
read_digits n [] = n
read_digits n (d ∷ text) = elim (digit_value d) [
  | none ↦ n
  | some k ↦ read_digits (n * 16 + k) text
]

-- `parseInt(text, 16)` on a text without white space, signs and `x`; `none` is `NaN`.
abbrev pub parse_int : Text → Option ℕ
parse_int [] = none
parse_int (d ∷ text) = elim (digit_value d) [ none ↦ none | some k ↦ some (read_digits k text) ]

-- `image.replace(/^0x/, '')`
abbrev pub strip_prefix : Text → Text
strip_prefix [] = []
strip_prefix (a ∷ []) = a ∷ []
strip_prefix (a ∷ b ∷ text) = if (a == 48) && (b == 120) then text else a ∷ b ∷ text

-- A length and a colour index.
abbrev pub RectPair : Type 0
RectPair = ℕ × ℕ

abbrev both : Option ℕ → Option ℕ → Option (List RectPair) → Option (List RectPair)
both (some n) (some c) (some rects) = some ((n, c) ∷ rects)
both _ _ _ = none

-- The matches of `/.{1,4}/g`, each as two numbers; `none` if one of them is `NaN`.
unfoldable pub decode_rects : Text → Option (List RectPair)
decode_rects [] = some []
decode_rects (a ∷ b ∷ c ∷ d ∷ text) =
    both (parse_int (a ∷ b ∷ [])) (parse_int (c ∷ d ∷ [])) (decode_rects text)
decode_rects (a ∷ b ∷ c ∷ []) = both (parse_int (a ∷ b ∷ [])) (parse_int (c ∷ [])) (some [])
decode_rects (a ∷ b ∷ []) = none
decode_rects (a ∷ []) = none

pub record DecodedImage : Type 0 where
  pub palette_index : ℕ
  pub bounds : ImageBounds
  pub rects : List RectPair

-- `none` if one of the numbers is `NaN`.
unfoldable pub decode_image : Text → Option DecodedImage
decode_image image =
    let text = strip_prefix image in
    do
      palette_index ← parse_int (take 2 text)
      top ← parse_int (take 2 (drop 2 text))
      right ← parse_int (take 2 (drop 4 text))
      bottom ← parse_int (take 2 (drop 6 text))
      left ← parse_int (take 2 (drop 8 text))
      rects ← decode_rects (drop 10 text)
      some (record {
        palette_index = palette_index;
        bounds = record { top = top; right = right; bottom = bottom; left = left };
        rects = rects;
      })

-- A `<rect>` of height 10; `fill = none` is a colour that the palette does not have.
pub record SvgRect : Type 0 where
  pub width : ℕ
  pub x : ℕ
  pub y : ℕ
  pub fill : Option Text

abbrev pub nth : List Text → ℕ → Option Text
nth [] n = none
nth (c ∷ colors) zero = some c
nth (c ∷ colors) (suc n) = nth colors n

module _ (palette : List Text) where
  -- No element for a transparent rect.
  abbrev pub draw_rect : ℕ → ℕ → RectPair → List SvgRect
  draw_rect x y (n, c) =
      if c == 0
      then []
      else record { width = n * 10; x = x * 10; y = y * 10; fill = nth palette c } ∷ []

  -- The loop over the rects, from `current_x` and `current_y` on.
  unfoldable pub draw_rects : ImageBounds → ℕ → ℕ → List RectPair → List SvgRect
  draw_rects b current_x current_y [] = []
  draw_rects b current_x current_y ((n, c) ∷ rects) =
      let wraps = (current_x + n) == b.right in
      draw_rect current_x current_y (n, c)
      ++ draw_rects b (if wraps then b.left else current_x + n)
          (if wraps then current_y + 1 else current_y) rects

  -- The elements of all parts, after the background.
  unfoldable pub build_svg : List Text → Option (List SvgRect)
  build_svg [] = some []
  build_svg (part ∷ parts) = do
    image ← decode_image part
    rest ← build_svg parts
    some (draw_rects image.bounds image.bounds.left image.bounds.top image.rects ++ rest)
