-- ===== src/Sdk/Image/Crop.antt =====
-- An encoded row is the part of the row between the left and the right bound.
use theword_monorepo.Prelude.{ℕ, ◌%◌, List, [], ◌∷◌, ◌++◌, replicate}
use theword_monorepo.Prelude.Int.{ℤ}
use theword_monorepo.Sdk.Image.{to_byte}

-- The pixels that the bytes of a row stand for: both numbers of a pair pass through a byte.
abbrev pub expand_pairs : List (ℤ × ℕ) → List ℕ
expand_pairs [] = []
expand_pairs ((n, c) ∷ pairs) = replicate (to_byte n) (c % 256) ++ expand_pairs pairs

-- The pixels with the whole colour indices.
abbrev expand_whole : List (ℤ × ℕ) → List ℕ
expand_whole [] = []
expand_whole ((n, c) ∷ pairs) = replicate (to_byte n) c ++ expand_whole pairs

-- The colour index of a pixel as a byte.
abbrev pub colour_byte : ℕ → ℕ
colour_byte c = c % 256
