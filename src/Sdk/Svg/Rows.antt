-- ===== src/Sdk/Svg/Rows.antt =====
-- The rows of a drawing.
use theword_monorepo.Prelude.{
  ℕ, ◌+◌, ◌<◌, ◌≡◌, refl, sym, ap, true, false, List, [], ◌∷◌, ◌++◌, arith, ◌==◌, All, ◌∙◌,
}
use mathlib.Core.List.{append_assoc, append-nil}
use theword_monorepo.Sdk.Hex.{Text}
use theword_monorepo.Sdk.Image.{ImageBounds}
use theword_monorepo.Sdk.Svg.{RectPair, SvgRect, draw_rect, draw_rects}

abbrev pub width_of : List RectPair → ℕ
width_of [] = 0
width_of ((n, c) ∷ rects) = n + width_of rects

module _ (palette : List Text) where
  -- The rects of one row side by side.
  abbrev pub draw_row : ℕ → ℕ → List RectPair → List SvgRect
  draw_row x y [] = []
  draw_row x y ((n, c) ∷ rects) = draw_rect palette x y (n, c) ++ draw_row (x + n) y rects

  -- The rows below each other, each from `left` on.
  abbrev pub draw_rows : ℕ → ℕ → List (List RectPair) → List SvgRect
  draw_rows left y [] = []
  draw_rows left y (row ∷ rows) = draw_row left y row ++ draw_rows left (y + 1) rows

-- A row that fills the bounds, of rects that are not empty.
abbrev pub IsRow : ImageBounds → List RectPair → Type 0
IsRow b row = (b.left + width_of row ≡ b.right) × All (λ r. 0 < r.0) row

abbrev pub concat : List (List RectPair) → List RectPair
concat [] = []
concat (row ∷ rows) = row ++ concat rows

module _ (palette : List Text) (b : ImageBounds) where
  draw_rects-row :
      (x y : ℕ) (n c : ℕ) (row more : List RectPair)
      → x + width_of ((n, c) ∷ row) ≡ b.right
      → All (λ r. 0 < r.0) row
      → draw_rects palette b x y (((n, c) ∷ row) ++ more)
        ≡ draw_row palette x y ((n, c) ∷ row) ++ draw_rects palette b b.left (y + 1) more
  unfolding draw_rects
  draw_rects-row x y n c [] more h p =
      let w : ((x + n) == b.right) ≡ true = ground arith in rw (w, append-nil) refl
  draw_rects-row x y n c ((m, d) ∷ row) more h (q, p) =
      let w : ((x + n) == b.right) ≡ false = ground arith in
      let k : (x + n) + width_of ((m, d) ∷ row) ≡ b.right = omega (arith, h) in
      rw w (
        ap (λ t. draw_rect palette x y (n, c) ++ t) (draw_rects-row (x + n) y m d row more k p)
        ∙ sym (
            append_assoc (draw_rect palette x y (n, c)) (draw_row palette (x + n) y ((m, d) ∷ row))
              (draw_rects palette b b.left (y + 1) more)))

  -- If the rects, none of them empty, make up rows that each fill the space between the left and the
  -- right bound, which is not empty, then buildSVG draws every row at its own height: the rects of
  -- the row side by side from the left bound, and each row one below the row before.
  pub draw_rects-rows :
      (y : ℕ) (rows : List (List RectPair))
      → b.left < b.right
      → All (IsRow b) rows
      → draw_rects palette b b.left y (concat rows) ≡ draw_rows palette b.left y rows
  unfolding draw_rects
  draw_rects-rows y [] lt a = refl
  draw_rects-rows y ([] ∷ rows) lt ((e, p), a) = absurd (omega (arith, e))
  draw_rects-rows y (((n, c) ∷ row) ∷ rows) lt ((e, (q, p)), a) =
      draw_rects-row b.left y n c row (concat rows) e p
      ∙ ap (λ t. draw_row palette b.left y ((n, c) ∷ row) ++ t) (draw_rects-rows (y + 1) rows lt a)
