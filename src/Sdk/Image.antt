-- ===== src/Sdk/Image.antt =====
-- image.ts and types.ts: an image, row by row, as runs of equal colour indices.
pub mod Runs
pub mod Crop
pub mod Scan
pub mod Vertical
pub mod Lost
use theword_monorepo.Prelude.{
  ℕ, zero, suc, ◌+◌, ◌-◌, ◌%◌, min, max, Bool, true, false, not, ◌&&◌, Option, none, some, List, [],
  ◌∷◌, ◌++◌, ltb, leb, ◌==◌, if◌then◌else◌, length,
}
use theword_monorepo.Prelude.Int.{ℤ, pos, negsuc, sub_ℕ}
use theword_monorepo.Sdk.Hex.{Text, to_padded_hex, rgb_to_hex, text_eq}

pub record Rgba : Type 0 where
  pub r : ℕ
  pub g : ℕ
  pub b : ℕ
  pub a : ℕ

pub record Rect : Type 0 where
  pub length : ℕ
  pub color_index : ℕ

pub record LineBounds : Type 0 where
  pub left : ℕ
  pub right : ℕ

pub record ImageRow : Type 0 where
  pub rects : List Rect
  pub bounds : LineBounds

pub record ImageBounds : Type 0 where
  pub top : ℕ
  pub right : ℕ
  pub bottom : ℕ
  pub left : ℕ

-- The rows by their number, in ascending order, as an object gives its integer keys.
abbrev pub ImageRows : Type 0
ImageRows = List (ℕ × ImageRow)

pub record Image : Type 0 where
  pub width : ℕ
  pub height : ℕ
  pub rows : ImageRows
  pub bounds : ImageBounds
  pub rle : Option Text

abbrev pub new_image : ℕ → ℕ → Image
new_image width height = record {
  width = width;
  height = height;
  rows = [];
  bounds = record { top = 0; right = 0; bottom = 0; left = 0 };
  rle = none;
}

-- The `Map` of colours, in the order of insertion.
abbrev pub Colors : Type 0
Colors = List (Text × ℕ)

unfoldable pub get_color : Colors → Text → Option ℕ
get_color [] k = none
get_color ((j, v) ∷ m) k = if text_eq j k then some v else get_color m k

-- `if (!colors.has(hexColor)) colors.set(hexColor, colors.size)`
unfoldable pub add_color : Text → Colors → Colors
add_color k m = elim (get_color m k) [ none ↦ m ++ (k, length m) ∷ [] | some v ↦ m ]

-- `colors.get(hexColor)!`, which is there since it was inserted.
abbrev pub index_of : Colors → Text → ℕ
index_of m k = elim (get_color m k) [ none ↦ 0 | some v ↦ v ]

unfoldable pub get_row : ImageRows → ℕ → Option ImageRow
get_row [] y = none
get_row ((z, row) ∷ rows) y = if z == y then some row else get_row rows y

unfoldable pub put_row : ImageRows → ℕ → ImageRow → ImageRows
put_row [] y new = (y, new) ∷ []
put_row ((z, row) ∷ rows) y new =
    if z == y
    then (y, new) ∷ rows
    else if ltb y z
    then (y, new) ∷ (z, row) ∷ rows
    else (z, row) ∷ put_row rows y new

-- The last run grows, or a run of one pixel is pushed.
unfoldable pub append_pixel : ℕ → List Rect → List Rect
append_pixel c [] = record { length = 1; color_index = c } ∷ []
append_pixel c (r ∷ []) =
    if r.color_index == c
    then record r { length = r.length + 1 } ∷ []
    else r ∷ record { length = 1; color_index = c } ∷ []
append_pixel c (r ∷ s ∷ rects) = r ∷ append_pixel c (s ∷ rects)

abbrev pub new_row : ImageRow
new_row = record { rects = []; bounds = record { left = 0; right = 0 } }

abbrev pub row_or_new : Option ImageRow → ImageRow
row_or_new none = new_row
row_or_new (some row) = row

unfoldable pub append_pixel_to_rect : ℕ → ℕ → ImageRows → ImageRows
append_pixel_to_rect c y rows =
    let row = row_or_new (get_row rows y) in
    put_row rows y (record row { rects = append_pixel c row.rects })

unfoldable pub is_empty_row : ℕ → List Rect → Bool
is_empty_row width [] = false
is_empty_row width (r ∷ rects) = (r.length == width) && (r.color_index == 0)

abbrev pub first_length : List Rect → ℕ
first_length [] = 0
first_length (r ∷ rects) = r.length

abbrev pub last_length : List Rect → ℕ
last_length [] = 0
last_length (r ∷ []) = r.length
last_length (r ∷ s ∷ rects) = last_length (s ∷ rects)

-- The changes of `top` and `bottom` for row `y`, which is empty or not.
unfoldable pub update_vertical : Bool → ℕ → ImageBounds → ImageBounds
update_vertical row_is_empty y b =
    let b1 : ImageBounds = if not row_is_empty && (b.top == 0) then record b { top = y } else b in
    if b1.top == 0
    then b1
    else if row_is_empty
    then (if b1.bottom == 0 then record b1 { bottom = y - 1 } else b1)
    else if y == 31
    then record b1 { bottom = y }
    else record b1 { bottom = 0 }

-- `none` is the `TypeError` for a row that does not exist, in an image without columns.
unfoldable pub update_image_bounds : ℕ → Image → Option Image
update_image_bounds y image = elim (get_row image.rows y) [
  | none ↦ none
  | some row ↦ some (record image {
    bounds = update_vertical (is_empty_row image.width row.rects) y image.bounds;
    rows = put_row image.rows y (record row {
      bounds = record {
        left = first_length row.rects;
        right = image.width - last_length row.rects;
      };
    });
  })
]

unfoldable pub delete_row : ℕ → ImageRows → ImageRows
delete_row y [] = []
delete_row y ((z, row) ∷ rows) =
    let rest = delete_row y rows in if z == y then rest else (z, row) ∷ rest

-- Deletes the rows `start`, …, `start + count - 1`.
unfoldable pub delete_rows : ℕ → ℕ → ImageRows → ImageRows
delete_rows start zero rows = rows
delete_rows start (suc count) rows = delete_row (start + count) (delete_rows start count rows)

-- The second loop runs from `height - 1` down to `bottom + 1`.
unfoldable pub delete_empty_rows : Image → Image
delete_empty_rows image =
    let above = delete_rows 0 image.bounds.top image.rows in
    let bottom = image.bounds.bottom in
    record image { rows = delete_rows (bottom + 1) (image.height - (bottom + 1)) above }

-- `Math.min(...)` and `Math.max(...)` over the rows, of which there is at least one.
abbrev pub min_left : ImageRow → ImageRows → ℕ
min_left row [] = row.bounds.left
min_left row ((y, next) ∷ rows) = min row.bounds.left (min_left next rows)

abbrev pub max_right : ImageRow → ImageRows → ℕ
max_right row [] = row.bounds.right
max_right row ((y, next) ∷ rows) = max row.bounds.right (max_right next rows)

unfoldable pub get_encoded_bounds : ImageBounds → Text
get_encoded_bounds b =
    (48 ∷ 120 ∷ 48 ∷ 48 ∷ [])
    ++ to_padded_hex b.top 2
    ++ to_padded_hex b.right 2
    ++ to_padded_hex b.bottom 2
    ++ to_padded_hex b.left 2

-- `Buffer.from` keeps the low byte of each number.
abbrev pub to_byte : ℤ → ℕ
to_byte (pos n) = n % 256
to_byte (negsuc n) = 255 - n % 256

-- The rects after the first one; the last of them ends at the right bound.
unfoldable pub encode_rest : ℕ → ImageBounds → List Rect → List (ℤ × ℕ)
encode_rest width b [] = []
encode_rest width b (r ∷ []) =
    if ltb (width - b.right) r.length
    then (pos (r.length - (width - b.right)), r.color_index) ∷ []
    else if r.length == (width - b.right)
    then []
    else (pos r.length, r.color_index) ∷ []
encode_rest width b (r ∷ s ∷ rects) =
    (pos r.length, r.color_index) ∷ encode_rest width b (s ∷ rects)

-- The pairs of a row before they become bytes.
unfoldable pub encode_row : ℕ → ImageBounds → List Rect → List (ℤ × ℕ)
encode_row width b [] = []
encode_row width b (r ∷ []) = (sub_ℕ b.right b.left, r.color_index) ∷ []
encode_row width b (r ∷ s ∷ rects) =
    if ltb b.left r.length
    then (pos (r.length - b.left), r.color_index) ∷ encode_rest width b (s ∷ rects)
    else if r.length == b.left
    then encode_rest width b (s ∷ rects)
    else (pos r.length, r.color_index) ∷ encode_rest width b (s ∷ rects)

unfoldable pub pairs_to_hex : List (ℤ × ℕ) → Text
pairs_to_hex [] = []
pairs_to_hex ((n, c) ∷ pairs) =
    to_padded_hex (to_byte n) 2 ++ to_padded_hex (c % 256) 2 ++ pairs_to_hex pairs

unfoldable pub get_encoded_row : ℕ → ImageBounds → ImageRow → Text
get_encoded_row width b row = pairs_to_hex (encode_row width b row.rects)

unfoldable pub get_encoded_rows : ℕ → ImageBounds → ImageRows → Text
get_encoded_rows width b [] = []
get_encoded_rows width b ((y, row) ∷ rows) =
    get_encoded_row width b row ++ get_encoded_rows width b rows

-- `'0x0000000000'`
abbrev pub empty_code : Text
empty_code = 48 ∷ 120 ∷ 48 ∷ 48 ∷ 48 ∷ 48 ∷ 48 ∷ 48 ∷ 48 ∷ 48 ∷ 48 ∷ 48 ∷ []

abbrev rects_at_0 : ImageRows → List Rect
rects_at_0 rows = (row_or_new (get_row rows 0)).rects

abbrev set_bounds : Image → Image
set_bounds image = elim image.rows [
  | [] ↦ image
  | (y, row) ∷ rows ↦
      let b = image.bounds in
      record image { bounds = record b { left = min_left row rows; right = max_right row rows } }
]

-- What `encode` does after its loops: the image and the text.
unfoldable pub finish : Image → Image × Text
unfolding delete_empty_rows get_encoded_bounds get_encoded_rows is_empty_row
finish image =
    let cropped = set_bounds (delete_empty_rows image) in
    if (length cropped.rows == 1) && is_empty_row cropped.width (rects_at_0 cropped.rows)
    then (cropped, empty_code)
    else (
      cropped,
      get_encoded_bounds cropped.bounds
          ++ get_encoded_rows cropped.width cropped.bounds cropped.rows,
    )

module _ (get_rgba_at : ℕ → ℕ → Rgba) where
  -- The colour index of a pixel, after its colour was inserted.
  unfoldable pub color_index : Rgba → Colors → ℕ
  color_index p colors = if p.a == 0 then 0 else index_of colors (rgb_to_hex p.r p.g p.b)

  -- The body of the inner loop.
  unfoldable pub encode_pixel : ℕ → ℕ → Colors → ImageRows → Colors × ImageRows
  encode_pixel x y colors rows =
      let p = get_rgba_at x y in
      let colors' = add_color (rgb_to_hex p.r p.g p.b) colors in
      (colors', append_pixel_to_rect (color_index p colors') y rows)

  -- The inner loop, with `count` pixels left from `x` on.
  unfoldable pub encode_pixels : ℕ → ℕ → ℕ → Colors → ImageRows → Colors × ImageRows
  encode_pixels zero x y colors rows = (colors, rows)
  encode_pixels (suc count) x y colors rows =
      let (colors', rows') = encode_pixel x y colors rows in
      encode_pixels count (x + 1) y colors' rows'

  -- The outer loop, with `count` rows left from `y` on.
  unfoldable pub encode_lines : ℕ → ℕ → Colors → Image → Option (Colors × Image)
  encode_lines zero y colors image = some (colors, image)
  encode_lines (suc count) y colors image =
      let (colors', rows) = encode_pixels image.width 0 y colors image.rows in
      elim (update_image_bounds y (record image { rows = rows })) [
        | none ↦ none
        | some next ↦ encode_lines count (y + 1) colors' next
      ]

  unfoldable pub encode : Colors → Image → Option (Colors × Image × Text)
  unfolding encode_lines
  encode colors image = elim (encode_lines image.height 0 colors image) [
    | none ↦ none
    | some (colors', scanned) ↦
        let (cropped, text) = finish scanned in some (colors', cropped, text)
  ]

  -- The encoding is made once for each image; no encoding is the empty text.
  unfoldable pub to_rle : Colors → Image → Option (Colors × Image × Text)
  unfolding encode
  to_rle colors image = elim image.rle [
    | some text ↦ some (colors, image, text)
    | none ↦ elim (encode colors image) [
      | none ↦ none
      | some (colors', next, text) ↦ some (colors', record next { rle = some text }, text)
    ]
  ]
