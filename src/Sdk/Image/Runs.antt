-- ===== src/Sdk/Image/Runs.antt =====
-- The runs of a row stand for its pixels, and are as few as possible.
use mathlib.Core.List.{append_assoc, append-nil}
use theword_monorepo.Prelude.{
  ℕ, ◌<◌, ◌≡◌, ◌≢◌, refl, ap, sym, ◌∙◌, List, [], ◌∷◌, ◌++◌, arith, ◌==◌, replicate, inl, inr,
  Bool-cases, ==_iff, replicate-add,
}
use theword_monorepo.Sdk.Image.{Rect, append_pixel}

abbrev pub expand : List Rect → List ℕ
expand [] = []
expand (r ∷ rects) = replicate r.length r.color_index ++ expand rects

-- A row, pixel by pixel.
abbrev pub runs_of : List ℕ → List Rect → List Rect
runs_of [] rects = rects
runs_of (c ∷ pixels) rects = runs_of pixels (append_pixel c rects)

append_pixel-expand :
    (c : ℕ) (rects : List Rect) → expand (append_pixel c rects) ≡ expand rects ++ c ∷ []
unfolding append_pixel
append_pixel-expand c [] = refl
append_pixel-expand c (r ∷ []) = elim (Bool-cases (r.color_index == c)) [
  | inl same ↦
      rw (same, append_pixel)
        (simp append-nil (
          replicate-add r.length 1 r.color_index
          ∙ ap (λ d. replicate r.length r.color_index ++ d ∷ []) ((==_iff _ _).0 same)))
  | inr other ↦ rw (other, append_pixel) (simp append-nil)
]
append_pixel-expand c (r ∷ s ∷ rects) =
    ap (λ t. replicate r.length r.color_index ++ t) (append_pixel-expand c (s ∷ rects))
    ∙ sym (append_assoc (replicate r.length r.color_index) (expand (s ∷ rects)) (c ∷ []))

-- No run is empty, and neighbours differ.
abbrev pub IsRuns : List Rect → Type 0
IsRuns [] = Unit
IsRuns (r ∷ []) = 0 < r.length
IsRuns (r ∷ s ∷ rects) = (0 < r.length) × (r.color_index ≢ s.color_index) × IsRuns (s ∷ rects)

append_pixel-IsRuns : (c : ℕ) (rects : List Rect) → IsRuns rects → IsRuns (append_pixel c rects)
unfolding append_pixel
append_pixel-IsRuns c [] h = omega arith
append_pixel-IsRuns c (r ∷ []) h = ground arith
append_pixel-IsRuns c (r ∷ s ∷ []) h = ground arith
append_pixel-IsRuns c (r ∷ s ∷ t ∷ rects) (h, n, k) =
    (h, n, append_pixel-IsRuns c (s ∷ t ∷ rects) k)

runs_of-expand_from :
    (cs : List ℕ) (rects : List Rect) → expand (runs_of cs rects) ≡ expand rects ++ cs
runs_of-expand_from [] rects = sym (append-nil _)
runs_of-expand_from (c ∷ cs) rects =
    runs_of-expand_from cs (append_pixel c rects)
    ∙ ap (λ t. t ++ cs) (append_pixel-expand c rects)
    ∙ append_assoc (expand rects) (c ∷ []) cs

runs_of-IsRuns : (cs : List ℕ) (rects : List Rect) → IsRuns rects → IsRuns (runs_of cs rects)
runs_of-IsRuns [] rects h = h
runs_of-IsRuns (c ∷ cs) rects h =
    runs_of-IsRuns cs (append_pixel c rects) (append_pixel-IsRuns c rects h)

-- Expanding the runs of a row gives back its pixels, and the runs are maximal: none is empty, and
-- no two neighbours have the same colour.
pub runs_of-expand :
    (pixels : List ℕ) → (expand (runs_of pixels []) ≡ pixels) × IsRuns (runs_of pixels [])
runs_of-expand pixels = (runs_of-expand_from pixels [], runs_of-IsRuns pixels [] tt)
