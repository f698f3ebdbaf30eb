-- ===== src/Sdk/Tests.antt =====
-- Small images, and the theorems at them.
use theword_monorepo.Prelude.{ℕ, ◌-◌, ◌≡◌, refl, some, none, List, [], ◌∷◌, ◌++◌, arith, not, ◌==◌}
use theword_monorepo.Prelude.Int.{pos}
use theword_monorepo.Sdk.Image.{
  Image, new_image, new_row, delete_empty_rows, Rgba, Rect, ImageBounds, get_row, encode_pixels,
  pairs_to_hex, get_encoded_bounds,
}
use theword_monorepo.Sdk.Image.Runs.{expand, runs_of, IsRuns, runs_of-expand}
use theword_monorepo.Sdk.Image.Scan.{indices, rects_at, Extends, encode_pixels-expand}
use theword_monorepo.Sdk.Image.Vertical.{vertical, IsExact, vertical-IsExact}
use theword_monorepo.Sdk.Image.Lost.{delete_empty_rows-all}
use theword_monorepo.Sdk.Svg.{decode_image, draw_rects}
use theword_monorepo.Sdk.Svg.Decode.{decode_image-encoded}
use theword_monorepo.Sdk.Svg.Rows.{draw_rows, concat, draw_rects-rows}
use theword_monorepo.Sdk.Seeds.{get_pseudorandom_part}
use theword_monorepo.Sdk.Seeds.Short.{short_number_fails}

runs_of_pixels :
    (expand (runs_of (1 ∷ 1 ∷ 0 ∷ []) []) ≡ 1 ∷ 1 ∷ 0 ∷ []) × IsRuns (runs_of (1 ∷ 1 ∷ 0 ∷ []) [])
runs_of_pixels = runs_of-expand (1 ∷ 1 ∷ 0 ∷ [])

-- A pixel of each column: red, red, transparent.
abbrev pixel : ℕ → ℕ → Rgba
pixel x y = record { r = 255; g = 0; b = 0; a = 2 - x }

encode_pixels-expand_example :
    (expand (rects_at (encode_pixels pixel 3 0 0 (([], 0) ∷ []) []).1 0)
      ≡ indices pixel 3 0 0 (encode_pixels pixel 3 0 0 (([], 0) ∷ []) []).0)
    × IsRuns (rects_at (encode_pixels pixel 3 0 0 (([], 0) ∷ []) []).1 0)
    × Extends (([], 0) ∷ []) (encode_pixels pixel 3 0 0 (([], 0) ∷ []) []).0
unfolding get_row
encode_pixels-expand_example = encode_pixels-expand pixel 3 0 (([], 0) ∷ []) [] refl

abbrev bounds : ImageBounds
bounds = record { top = 1; right = 5; bottom = 2; left = 1 }

abbrev first_rect : Rect
first_rect = record { length = 2; color_index = 0 }

abbrev other_rects : List Rect
other_rects = record { length = 3; color_index = 300 } ∷ record { length = 1; color_index = 0 } ∷ []

vertical-IsExact_example : IsExact (λ y. not (y == 7)) 32 (vertical (λ y. not (y == 7)) 32)
vertical-IsExact_example = vertical-IsExact (λ y. not (y == 7)) refl

-- An image of 16 rows with a single filled row, the last one.
abbrev sixteen : Image
sixteen = record (new_image 1 16) {
  rows = (15, new_row) ∷ [];
  bounds = vertical (λ y. not (y == 15)) 16;
}

delete_empty_rows-all_example : (delete_empty_rows sixteen).rows ≡ []
delete_empty_rows-all_example =
    delete_empty_rows-all (λ y. not (y == 15)) 15 sixteen (omega arith) refl refl refl refl
      (omega arith, tt)

decode_image-encoded_example :
    decode_image (get_encoded_bounds bounds ++ pairs_to_hex ((pos 4, 7) ∷ []))
    ≡ some (record { palette_index = 0; bounds = bounds; rects = (4, 7) ∷ [] })
decode_image-encoded_example =
    decode_image-encoded bounds ((pos 4, 7) ∷ []) (omega arith) (omega arith) (omega arith)
      (omega arith)

draw_rects-rows_example :
    draw_rects
      ((97 ∷ []) ∷ (98 ∷ []) ∷ [])
      bounds
      1
      1
      (concat (((4, 1) ∷ []) ∷ ((1, 1) ∷ (3, 0) ∷ []) ∷ []))
    ≡ draw_rows ((97 ∷ []) ∷ (98 ∷ []) ∷ []) 1 1 (((4, 1) ∷ []) ∷ ((1, 1) ∷ (3, 0) ∷ []) ∷ [])
draw_rects-rows_example =
    draw_rects-rows ((97 ∷ []) ∷ (98 ∷ []) ∷ []) bounds 1
      (((4, 1) ∷ []) ∷ ((1, 1) ∷ (3, 0) ∷ []) ∷ []) (omega arith)
      ((refl, (omega arith, tt)), ((refl, (omega arith, (omega arith, tt))), tt))

short_number_fails_example : get_pseudorandom_part 255 10 0 48 ≡ none
short_number_fails_example = short_number_fails 255 10 0 (omega arith)
