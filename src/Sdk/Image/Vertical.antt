-- ===== src/Sdk/Image/Vertical.antt =====
-- The top and the bottom bound.
use theword_monorepo.Prelude.{
  ℕ, zero, suc, ◌-◌, ◌<◌, ◌≡◌, ◌≢◌, refl, Bool, true, false, arith, ◌==◌, if◌then◌else◌, inl, inr,
  ◌⊎◌, Bool-cases, ==_iff,
}
use theword_monorepo.Sdk.Image.{ImageBounds, update_vertical}

abbrev pub no_bounds : ImageBounds
no_bounds = record { top = 0; right = 0; bottom = 0; left = 0 }

-- The bounds after the first `count` rows, of which `is_empty` says which are empty.
unfoldable pub vertical : (ℕ → Bool) → ℕ → ImageBounds
vertical is_empty zero = no_bounds
vertical is_empty (suc count) = update_vertical (is_empty count) count (vertical is_empty count)

abbrev end_at : ℕ → ℕ
end_at y = if y == 31 then y else 0

-- `update_vertical` by its cases.
module _ (y : ℕ) (b : ImageBounds) where
  blank_empty : b.top ≡ 0 → update_vertical true y b ≡ b
  unfolding update_vertical
  blank_empty h = ground arith

  blank_filled :
      b.top ≡ 0
      → b.bottom ≡ 0
      → y ≢ 0
      → update_vertical false y b ≡ record b { top = y; bottom = end_at y }
  unfolding update_vertical
  blank_filled h k n = ground arith

  open_empty : b.top ≢ 0 → b.bottom ≡ 0 → update_vertical true y b ≡ record b { bottom = y - 1 }
  unfolding update_vertical
  open_empty h k = ground arith

  closed_empty : b.top ≢ 0 → b.bottom ≢ 0 → update_vertical true y b ≡ b
  unfolding update_vertical
  closed_empty h k = ground arith

  begun_filled : b.top ≢ 0 → update_vertical false y b ≡ record b { bottom = end_at y }
  unfolding update_vertical
  begun_filled h = ground arith

module _ (is_empty : ℕ → Bool) where
  -- What the bounds say of the first `count` rows.
  data Phase (count : ℕ) (b : ImageBounds) : Type 0 where
    blank : b.top ≡ 0 → b.bottom ≡ 0 → ((y : ℕ) → y < count → is_empty y ≡ true) → Phase count b
    unfinished :
        (n : ℕ)
        → count ≡ suc n
        → n ≢ 31
        → is_empty n ≡ false
        → b.bottom ≡ 0
        → b.top ≢ 0
        → b.top < count
        → is_empty b.top ≡ false
        → ((y : ℕ) → y < b.top → is_empty y ≡ true)
        → Phase count b
    closed :
        b.bottom ≢ 0
        → b.bottom < count
        → is_empty b.bottom ≡ false
        → ((y : ℕ) → b.bottom < y → y < count → is_empty y ≡ true)
        → b.top ≢ 0
        → b.top < count
        → is_empty b.top ≡ false
        → ((y : ℕ) → y < b.top → is_empty y ≡ true)
        → Phase count b

  module _ (count : ℕ) where
    one_more :
        {from : ℕ}
        → ((y : ℕ) → from < y → y < count → is_empty y ≡ true)
        → is_empty count ≡ true
        → (y : ℕ) → from < y
        → y < suc count
        → is_empty y ≡ true
    one_more h e y lo hi = elim (Bool-cases (y == count)) [
      | inl same ↦ rw ((==_iff y count).0 same) e
      | inr other ↦ h y lo (ground arith)
    ]

    all_more :
        ((y : ℕ) → y < count → is_empty y ≡ true)
        → is_empty count ≡ true
        → (y : ℕ) → y < suc count
        → is_empty y ≡ true
    all_more h e y hi = elim (Bool-cases (y == count)) [
      | inl same ↦ rw ((==_iff y count).0 same) e
      | inr other ↦ h y (ground arith)
    ]

    -- A filled row starts or goes on with the drawing.
    filled_Phase :
        (top : ℕ) (b : ImageBounds)
        → is_empty count ≡ false
        → count ≢ 0
        → top ≢ 0
        → top < suc count
        → is_empty top ≡ false
        → ((y : ℕ) → y < top → is_empty y ≡ true)
        → Phase (suc count) (record b { top = top; bottom = end_at count })
    filled_Phase top b f nz t lt ft first = elim (Bool-cases (count == 31)) [
      | inl last ↦
          rw last (closed nz (omega arith) f (λ y lo hi. absurd (omega arith)) t lt ft first)
      | inr other ↦ rw other (unfinished count refl (ground arith) f refl t lt ft first)
    ]

    Phase-filled :
        (b : ImageBounds)
        → is_empty count ≡ false
        → count ≢ 0
        → Phase count b
        → Phase (suc count) (update_vertical false count b)
    Phase-filled b f nz (blank t z all) =
        rw (blank_filled count b t z nz) (filled_Phase count b f nz nz (omega arith) f all)
    Phase-filled b f nz (unfinished n c l e z t lt ft first) =
        rw (begun_filled count b t) (filled_Phase b.top b f nz t (omega arith) ft first)
    Phase-filled b f nz (closed z zl fz last t lt ft first) =
        rw (begun_filled count b t) (filled_Phase b.top b f nz t (omega arith) ft first)

    Phase-empty :
        (b : ImageBounds)
        → is_empty count ≡ true
        → Phase count b
        → Phase (suc count) (update_vertical true count b)
    Phase-empty b e (blank t z all) = rw (blank_empty count b t) (blank t z (all_more all e))
    Phase-empty b e (unfinished n c l f z t lt ft first) =
        let before : count - 1 ≡ n = omega arith in
        let above : n ≢ 0 = omega arith in
        rw (open_empty count b t z, before)
          (closed above (omega arith) f (one_more (λ y lo hi. absurd (omega arith)) e) t
            (omega arith) ft first)
    Phase-empty b e (closed z zl fz last t lt ft first) =
        rw (closed_empty count b t z)
          (closed z (omega arith) fz (one_more last e) t (omega arith) ft first)

  vertical-Phase : is_empty 0 ≡ true → (count : ℕ) → Phase count (vertical is_empty count)
  unfolding vertical
  vertical-Phase zeroth zero = blank refl refl (λ y lt. absurd (omega arith))
  vertical-Phase zeroth (suc count) = elim (Bool-cases (is_empty count)) [
    | inl e ↦ rw e (Phase-empty count _ e (vertical-Phase zeroth count))
    | inr f ↦ rw f (Phase-filled count _ f (λ z. cc (z, f, zeroth)) (vertical-Phase zeroth count))
  ]

-- The bounds are blank and all rows empty, or the top is the first filled row and the bottom the
-- last one.
unfoldable pub IsExact : (ℕ → Bool) → ℕ → ImageBounds → Type 0
IsExact is_empty count b =
    (b.top ≡ 0 × ((y : ℕ) → y < count → is_empty y ≡ true))
    ⊎ ((is_empty b.top ≡ false × ((y : ℕ) → y < b.top → is_empty y ≡ true))
        × (is_empty b.bottom ≡ false × ((y : ℕ) → b.bottom < y → y < count → is_empty y ≡ true)))

-- For an image of 32 rows whose first row is empty, the bounds that updateImageBounds leaves are
-- exact: either every row is empty and the top is 0, or the top is the first filled row and the
-- bottom the last filled row.
pub vertical-IsExact :
    (is_empty : ℕ → Bool) → is_empty 0 ≡ true → IsExact is_empty 32 (vertical is_empty 32)
unfolding IsExact
vertical-IsExact is_empty zeroth = elim (vertical-Phase is_empty zeroth 32) [
  | blank t z all ↦ inl (t, all)
  | unfinished n c l f z t lt ft first ↦ absurd (omega arith)
  | closed z zl fz last t lt ft first ↦ inr ((ft, first), (fz, last))
]

no_bottom :
    (y : ℕ) (b : ImageBounds)
    → y ≢ 31
    → (b.top ≡ 0 → b.bottom ≡ 0)
    → (update_vertical false y b).bottom ≡ 0
unfolding update_vertical
no_bottom y b n h = ground arith

Phase-blank :
    (is_empty : ℕ → Bool) (count : ℕ) (b : ImageBounds)
    → Phase is_empty count b
    → b.top ≡ 0
    → b.bottom ≡ 0
Phase-blank is_empty count b (blank t z all) h = z
Phase-blank is_empty count b (unfinished n c l e z t lt ft first) h = z
Phase-blank is_empty count b (closed z zl fz last t lt ft first) h = absurd (t h)

-- For an image whose height is not 32, whose first row is empty and whose last row is filled, the
-- bottom bound that updateImageBounds leaves is 0.
pub vertical_loses_bottom :
    (is_empty : ℕ → Bool) (last : ℕ)
    → last ≢ 31
    → is_empty 0 ≡ true
    → is_empty last ≡ false
    → (vertical is_empty (suc last)).bottom ≡ 0
unfolding vertical
vertical_loses_bottom is_empty last n zeroth f =
    rw f (no_bottom last _ n (Phase-blank is_empty last _ (vertical-Phase is_empty zeroth last)))

-- The top bound of such an image is not 0.
pub vertical_top :
    (is_empty : ℕ → Bool) (last : ℕ)
    → is_empty 0 ≡ true
    → is_empty last ≡ false
    → (vertical is_empty (suc last)).top ≢ 0
vertical_top is_empty last zeroth f t = elim (vertical-Phase is_empty zeroth (suc last)) [
  | blank u z all ↦ let e : is_empty last ≡ true = all last (omega arith) in cc (e, f)
  | unfinished m c l g z u lt ft first ↦ absurd (u t)
  | closed z zl fz later u lt ft first ↦ absurd (u t)
]
