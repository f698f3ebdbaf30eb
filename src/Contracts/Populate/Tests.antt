-- ===== src/Contracts/Populate/Tests.antt =====
-- An image data of twelve heads, and the theorem at it.
use theword_monorepo.Prelude.{
  ℕ, ◌≡◌, refl, String, Bool, true, false, List, [], ◌∷◌, ◌++◌, ◌⊎◌, replicate,
}
use theword_monorepo.Contracts.Populate.{
  Part, ImageData, Call, add_many_heads, accessory_calls, head_calls, chunks_from, chunk_array,
  populate_descriptor, run_calls,
}
use theword_monorepo.Contracts.Populate.Filled.{
  head, all_sent, parts_of, run_calls-populate_descriptor,
}

abbrev five : List ℕ
five = 1 ∷ 2 ∷ 3 ∷ 4 ∷ 5 ∷ []

chunks_of_five : chunk_array five 2 ≡ (1 ∷ 2 ∷ []) ∷ (3 ∷ 4 ∷ []) ∷ (5 ∷ []) ∷ []
unfolding chunk_array chunks_from
chunks_of_five = refl

abbrev part : Part
part = record { filename = "head-aardvark"; encoded = "0x0003" }

abbrev image_data : ImageData
image_data = record {
  bgcolors = "d5d7e1" ∷ "e1d7d5" ∷ [];
  palette = "" ∷ "ffffff" ∷ [];
  bodies = part ∷ [];
  accessories = replicate 3 part;
  heads = replicate 12 part;
  glasses = part ∷ [];
}

-- The second chunk of heads, which has two, fails.
abbrev fails_at_two : Call → Bool
fails_at_two (add_many_heads (a ∷ b ∷ [])) = false
fails_at_two _ = true

ten_heads :
    all_sent head (run_calls fails_at_two (populate_descriptor image_data)).0
    ≡ replicate 10 "0x0003"
unfolding run_calls populate_descriptor accessory_calls head_calls chunk_array chunks_from
ten_heads = refl

run_calls-populate_descriptor_example :
    (rest : List String) × (all_sent head
          (run_calls fails_at_two (populate_descriptor image_data)).0
        ++ rest
      ≡ parts_of image_data head)
    × (((run_calls fails_at_two (populate_descriptor image_data)).1 ≡ false) ⊎ (rest ≡ []))
run_calls-populate_descriptor_example = run_calls-populate_descriptor fails_at_two image_data head
