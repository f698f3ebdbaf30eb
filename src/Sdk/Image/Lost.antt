-- ===== src/Sdk/Image/Lost.antt =====
-- Which rows are deleted where the bottom bound is lost.
use mathlib.Core.Path.{subst}
use theword_monorepo.Prelude.{
  ℕ, zero, suc, ◌+◌, ◌-◌, ◌<◌, ◌≤◌, ◌≡◌, ◌≢◌, refl, sym, ap, ◌∙◌, Bool, true, false, [], ◌∷◌, arith,
  ◌==◌, if◌then◌else◌, inl, inr, Bool-cases, All,
}
use theword_monorepo.Sdk.Image.{
  ImageRow, ImageRows, Image, delete_row, delete_rows, delete_empty_rows,
}
use theword_monorepo.Sdk.Image.Vertical.{vertical, vertical_loses_bottom, vertical_top}

-- A property of the numbers of all rows.
abbrev pub AllRows : (ℕ → Type 0) → ImageRows → Type 0
AllRows P rows = All (λ (r : ℕ × ImageRow). P r.0) rows

delete_row-keeps :
    (P : ℕ → Type 0) (y : ℕ) (rows : ImageRows) → AllRows P rows → AllRows P (delete_row y rows)
unfolding delete_row
delete_row-keeps P y [] a = a
delete_row-keeps P y ((z, row) ∷ rows) (p, a) = elim (Bool-cases (z == y)) [
  | inl e ↦ rw e (delete_row-keeps P y rows a)
  | inr e ↦ rw e (p, delete_row-keeps P y rows a)
]

delete_row-gone : (y : ℕ) (rows : ImageRows) → AllRows (λ z. (z == y) ≡ false) (delete_row y rows)
unfolding delete_row
delete_row-gone y [] = tt
delete_row-gone y ((z, row) ∷ rows) = elim (Bool-cases (z == y)) [
  | inl e ↦ rw e (delete_row-gone y rows)
  | inr e ↦
      let a = delete_row-gone y rows in
      subst
        (λ b.
          AllRows (λ z. (z == y) ≡ false)
            (if b then delete_row y rows else (z, row) ∷ delete_row y rows))
        (sym e) (e, a)
]

delete_rows-keeps :
    (P : ℕ → Type 0) (start count : ℕ) (rows : ImageRows)
    → AllRows P rows
    → AllRows P (delete_rows start count rows)
unfolding delete_rows
delete_rows-keeps P start zero rows a = a
delete_rows-keeps P start (suc count) rows a =
    delete_row-keeps P (start + count) _ (delete_rows-keeps P start count rows a)

delete_rows-gone :
    (start count y : ℕ) (rows : ImageRows)
    → start ≤ y
    → y < start + count
    → AllRows (λ z. (z == y) ≡ false) (delete_rows start count rows)
unfolding delete_rows
delete_rows-gone start zero y rows lo hi = absurd (omega arith)
delete_rows-gone start (suc count) y rows lo hi = elim (Bool-cases (y == (start + count))) [
  | inl e ↦
      let same : start + count ≡ y = ground arith in
      subst
        (λ k.
          AllRows (λ z. (z == k) ≡ false)
            (delete_row (start + count) (delete_rows start count rows)))
        same (delete_row-gone (start + count) (delete_rows start count rows))
  | inr e ↦
      delete_row-keeps (λ z. (z == y) ≡ false) (start + count) _
        (delete_rows-gone start count y rows lo (ground arith))
]

nothing_left :
    (height : ℕ) (rows : ImageRows)
    → AllRows (λ z. z < height) rows
    → ((y : ℕ) → y < height → AllRows (λ z. (z == y) ≡ false) rows)
    → rows ≡ []
nothing_left height [] a gone = refl
nothing_left height ((z, row) ∷ rows) (lt, a) gone =
    let same : (z == z) ≡ true = ground arith in absurd (cc (same, (gone z lt).0))

-- For an image whose height is not 32, whose first row is empty and whose last row is filled, whose
-- rows are numbered below the height, and with the bounds that updateImageBounds leaves,
-- deleteEmptyRows deletes every row.
pub delete_empty_rows-all :
    (is_empty : ℕ → Bool) (last : ℕ) (image : Image)
    → last ≢ 31
    → is_empty 0 ≡ true
    → is_empty last ≡ false
    → image.height ≡ suc last
    → image.bounds ≡ vertical is_empty (suc last)
    → AllRows (λ z. z < image.height) image.rows
    → (delete_empty_rows image).rows ≡ []
unfolding delete_empty_rows
delete_empty_rows-all is_empty last image n zeroth f high b a =
    let bottom : image.bounds.bottom ≡ 0 =
      ap (λ c. c.bottom) b ∙ vertical_loses_bottom is_empty last n zeroth f in
    let top : image.bounds.top ≢ 0 =
      λ t. vertical_top is_empty last zeroth f (sym (ap (λ c. c.top) b) ∙ t) in
    let above = delete_rows 0 image.bounds.top image.rows in
    let size : image.height - (0 + 1) ≡ last = omega arith in
    rw bottom (
      nothing_left image.height (delete_rows (0 + 1) (image.height - (0 + 1)) above)
        (delete_rows-keeps (λ z. z < image.height) (0 + 1) _ above
          (delete_rows-keeps (λ z. z < image.height) 0 image.bounds.top image.rows a))
        (λ y lt. elim (Bool-cases (y == 0)) [
          | inl e ↦
              delete_rows-keeps (λ z. (z == y) ≡ false) (0 + 1) _ above
                (delete_rows-gone 0 image.bounds.top y image.rows (omega arith) (ground arith))
          | inr e ↦ delete_rows-gone (0 + 1) _ y above (ground arith) (ground arith)
        ]))
