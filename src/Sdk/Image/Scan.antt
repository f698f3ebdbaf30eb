-- ===== src/Sdk/Image/Scan.antt =====
-- The inner loop of `encode`: the palette grows without changing an index, and the row that the
-- loop leaves stands for the pixels that it read.
use theword_monorepo.Prelude.{
  ℕ, zero, suc, ◌+◌, ◌≡◌, refl, ap, ◌∙◌, true, none, some, List, [], ◌∷◌, ◌++◌, arith,
  if◌then◌else◌, length, inl, inr, Option-cases,
}
use theword_monorepo.Sdk.Hex.{Text, text_eq, text_eq_iff, rgb_to_hex}
use theword_monorepo.Sdk.Image.{
  Rgba, Rect, ImageRow, ImageRows, Colors, get_color, add_color, get_row, put_row, append_pixel,
  append_pixel_to_rect, row_or_new, color_index, encode_pixel, encode_pixels,
}
use theword_monorepo.Sdk.Image.Runs.{expand, runs_of, IsRuns, runs_of-expand}

-- Every colour of the first palette has the same index in the second one.
pub record Extends (m m' : Colors) : Type 0 where
  pub keeps : (k : Text) (v : ℕ) → get_color m k ≡ some v → get_color m' k ≡ some v

get_color-append :
    (m : Colors) (k j : Text) (v : ℕ)
    → get_color (m ++ (k, v) ∷ []) j
      ≡ elim (get_color m j) [ none ↦ if text_eq k j then some v else none | some w ↦ some w ]
unfolding get_color
get_color-append [] k j v = refl
get_color-append ((i, w) ∷ m) k j v = ground (arith, get_color-append m k j v)

pub add_color-Extends : (k : Text) (m : Colors) → Extends m (add_color k m)
unfolding add_color
add_color-Extends k m = record {
  keeps = λ j v h. ground (arith, get_color-append m k j (length m));
}

text_eq_refl : (k : Text) → text_eq k k ≡ true
text_eq_refl k = (text_eq_iff k k).1 refl

pub add_color-has : (k : Text) (m : Colors) → (v : ℕ) × (get_color (add_color k m) k ≡ some v)
unfolding add_color
add_color-has k m = elim (Option-cases (get_color m k)) [
  | inl missing ↦ (length m, ground (arith, get_color-append m k k (length m), text_eq_refl k))
  | inr (v, found) ↦ (v, ground arith)
]

Extends-trans : {l m n : Colors} → Extends l m → Extends m n → Extends l n
Extends-trans a b = record { keeps = λ k v h. b.keeps k v (a.keeps k v h) }

pub get_row-put_row :
    (rows : ImageRows) (y : ℕ) (row : ImageRow) → get_row (put_row rows y row) y ≡ some row
unfolding get_row put_row
get_row-put_row [] y row = ground arith
get_row-put_row ((z, old) ∷ rows) y row = ground (arith, get_row-put_row rows y row)

abbrev pub rects_at : ImageRows → ℕ → List Rect
rects_at rows y = (row_or_new (get_row rows y)).rects

rects_at-append_pixel_to_rect :
    (c y : ℕ) (rows : ImageRows)
    → rects_at (append_pixel_to_rect c y rows) y ≡ append_pixel c (rects_at rows y)
unfolding append_pixel_to_rect
rects_at-append_pixel_to_rect c y rows =
    let row = row_or_new (get_row rows y) in
    let grown : ImageRow = record row { rects = append_pixel c row.rects } in
    ap (λ o. (row_or_new o).rects) (get_row-put_row rows y grown)

module _ (get_rgba_at : ℕ → ℕ → Rgba) where
  -- The colour indices of `count` pixels from `x` on, in a given palette.
  abbrev pub indices : ℕ → ℕ → ℕ → Colors → List ℕ
  indices zero x y colors = []
  indices (suc count) x y colors =
      color_index get_rgba_at (get_rgba_at x y) colors ∷ indices count (x + 1) y colors

  encode_pixels-Extends :
      (count x y : ℕ) (colors : Colors) (rows : ImageRows)
      → Extends colors (encode_pixels get_rgba_at count x y colors rows).0
  unfolding encode_pixels encode_pixel
  encode_pixels-Extends zero x y colors rows = record { keeps = λ k v h. h }
  encode_pixels-Extends (suc count) x y colors rows =
      let p = get_rgba_at x y in
      let (colors', rows') = encode_pixel get_rgba_at x y colors rows in
      Extends-trans (add_color-Extends (rgb_to_hex p.r p.g p.b) colors)
        (encode_pixels-Extends count (x + 1) y colors' rows')

  color_index_kept :
      (p : Rgba) (m m' : Colors)
      → Extends (add_color (rgb_to_hex p.r p.g p.b) m) m'
      → color_index get_rgba_at p (add_color (rgb_to_hex p.r p.g p.b) m)
        ≡ color_index get_rgba_at p m'
  unfolding color_index
  color_index_kept p m m' e =
      let k = rgb_to_hex p.r p.g p.b in
      let (v, found) = add_color-has k m in ground (arith, e.keeps k v found)

  encode_pixels_rects :
      (count x y : ℕ) (colors : Colors) (rows : ImageRows)
      → rects_at (encode_pixels get_rgba_at count x y colors rows).1 y
        ≡ runs_of
            (indices count x y (encode_pixels get_rgba_at count x y colors rows).0)
            (rects_at rows y)
  unfolding encode_pixels encode_pixel
  encode_pixels_rects zero x y colors rows = refl
  encode_pixels_rects (suc count) x y colors rows =
      let p = get_rgba_at x y in
      let k = rgb_to_hex p.r p.g p.b in
      let c = color_index get_rgba_at p (add_color k colors) in
      let rows' = append_pixel_to_rect c y rows in
      let last = (encode_pixels get_rgba_at count (x + 1) y (add_color k colors) rows').0 in
      let kept : c ≡ color_index get_rgba_at p last =
        color_index_kept p colors last
          (encode_pixels-Extends count (x + 1) y (add_color k colors) rows') in
      encode_pixels_rects count (x + 1) y (add_color k colors) rows'
      ∙ ap (runs_of (indices count (x + 1) y last))
          (rects_at-append_pixel_to_rect c y rows ∙ ap (λ d. append_pixel d (rects_at rows y)) kept)

  -- After the inner loop over a new row, the runs of the row expand to the colour indices of its
  -- pixels in the palette as it then is, they are maximal, and no colour that the palette had
  -- before has another index.
  pub encode_pixels-expand :
      (width y : ℕ) (colors : Colors) (rows : ImageRows)
      → get_row rows y ≡ none
      → (expand (rects_at (encode_pixels get_rgba_at width 0 y colors rows).1 y)
          ≡ indices width 0 y (encode_pixels get_rgba_at width 0 y colors rows).0)
        × IsRuns (rects_at (encode_pixels get_rgba_at width 0 y colors rows).1 y)
        × Extends colors (encode_pixels get_rgba_at width 0 y colors rows).0
  encode_pixels-expand width y colors rows missing =
      let colors' = (encode_pixels get_rgba_at width 0 y colors rows).0 in
      let scanned =
        encode_pixels_rects width 0 y colors rows
        ∙ ap (λ o. runs_of (indices width 0 y colors') (row_or_new o).rects) missing in
      let (same, maximal) = runs_of-expand (indices width 0 y colors') in
      (rw scanned same, rw scanned maximal, encode_pixels-Extends width 0 y colors rows)
