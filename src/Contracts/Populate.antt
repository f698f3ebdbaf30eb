-- ===== src/Contracts/Populate.antt =====
-- utils.ts and populate-descriptor.ts: an array in chunks, and the calls that fill the descriptor. A
-- call that fails stops the task.
pub mod Chunks
pub mod Filled
mod Tests
use theword_monorepo.Prelude.{
  ℕ, zero, suc, ◌+◌, String, Bool, true, false, List, [], ◌∷◌, ◌++◌, map, ltb, if◌then◌else◌,
  length, take, drop,
}

-- The loop from `i` on, on fuel; a size of 0 never ends.
unfoldable pub chunks_from {ℓ} : {A : Type ℓ} → ℕ → ℕ → ℕ → List A → List (List A)
chunks_from zero i size array = []
chunks_from (suc fuel) i size array =
    let rest = chunks_from fuel (i + size) size array in
    if ltb i (length array) then take size (drop i array) ∷ rest else []

-- Each step advances by one at least, so the length is enough.
unfoldable pub chunk_array {ℓ} : {A : Type ℓ} → List A → ℕ → List (List A)
chunk_array array size = chunks_from (length array) 0 size array

pub record Part : Type 0 where
  pub filename : String
  pub encoded : String

pub record ImageData : Type 0 where
  pub bgcolors : List String
  pub palette : List String
  pub bodies : List Part
  pub accessories : List Part
  pub heads : List Part
  pub glasses : List Part

pub data Call : Type 0 where
  add_many_backgrounds : List String → Call
  add_many_colors_to_palette : ℕ → List String → Call
  add_many_bodies : List String → Call
  add_many_accessories : List String → Call
  add_many_heads : List String → Call
  add_many_glasses : List String → Call

abbrev pub data_of : List Part → List String
data_of parts = map (λ part. part.encoded) parts

unfoldable pub accessory_calls : List (List Part) → List Call
accessory_calls chunks = map (λ chunk. add_many_accessories (data_of chunk)) chunks

unfoldable pub head_calls : List (List Part) → List Call
head_calls chunks = map (λ chunk. add_many_heads (data_of chunk)) chunks

-- The calls in their order.
unfoldable pub populate_descriptor : ImageData → List Call
populate_descriptor d =
    add_many_backgrounds d.bgcolors
    ∷ add_many_colors_to_palette 0 d.palette
    ∷ add_many_bodies (data_of d.bodies)
    ∷ (accessory_calls (chunk_array d.accessories 10)
        ++ (head_calls (chunk_array d.heads 10) ++ add_many_glasses (data_of d.glasses) ∷ []))

-- The calls that are made before one fails, and whether all are.
unfoldable pub run_calls : (Call → Bool) → List Call → List Call × Bool
run_calls succeeds [] = ([], true)
run_calls succeeds (call ∷ calls) =
    let (made, done) = run_calls succeeds calls in
    if succeeds call then (call ∷ made, done) else ([], false)
