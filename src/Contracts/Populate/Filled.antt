-- ===== src/Contracts/Populate/Filled.antt =====
-- What the calls of populate-descriptor.ts send of each kind of part.
use theword_monorepo.Prelude.{
  ◌≡◌, refl, sym, ap, ◌∙◌, String, Bool, false, List, [], ◌∷◌, ◌++◌, Bool-cases, ◌⊎◌, inl, inr,
  arith,
}
use theword_monorepo.Contracts.Populate.{
  Part, ImageData, Call, add_many_backgrounds, add_many_bodies, add_many_accessories,
  add_many_heads, add_many_glasses, data_of, accessory_calls, head_calls, populate_descriptor,
  run_calls, chunk_array,
}
use theword_monorepo.Contracts.Populate.Chunks.{joined, chunk_array-joined}

pub data Kind : Type 0 where
  background : Kind
  body : Kind
  accessory : Kind
  head : Kind
  glass : Kind

abbrev pub parts_of : ImageData → Kind → List String
parts_of d background = d.bgcolors
parts_of d body = data_of d.bodies
parts_of d accessory = data_of d.accessories
parts_of d head = data_of d.heads
parts_of d glass = data_of d.glasses

abbrev pub sent : Kind → Call → List String
sent background (add_many_backgrounds parts) = parts
sent body (add_many_bodies parts) = parts
sent accessory (add_many_accessories parts) = parts
sent head (add_many_heads parts) = parts
sent glass (add_many_glasses parts) = parts
sent _ _ = []

abbrev pub all_sent : Kind → List Call → List String
all_sent k [] = []
all_sent k (call ∷ calls) = sent k call ++ all_sent k calls

append_nil {ℓ} : {A : Type ℓ} (xs : List A) → xs ++ [] ≡ xs
append_nil [] = refl
append_nil (x ∷ xs) = ap (λ t. x ∷ t) (append_nil xs)

append_assoc {ℓ} : {A : Type ℓ} (xs ys zs : List A) → (xs ++ ys) ++ zs ≡ xs ++ (ys ++ zs)
append_assoc [] ys zs = refl
append_assoc (x ∷ xs) ys zs = ap (λ t. x ∷ t) (append_assoc xs ys zs)

data_of-append : (xs ys : List Part) → data_of (xs ++ ys) ≡ data_of xs ++ data_of ys
data_of-append [] ys = refl
data_of-append (x ∷ xs) ys = ap (λ t. x.encoded ∷ t) (data_of-append xs ys)

all_sent-append :
    (k : Kind) (xs ys : List Call) → all_sent k (xs ++ ys) ≡ all_sent k xs ++ all_sent k ys
all_sent-append k [] ys = refl
all_sent-append k (x ∷ xs) ys =
    ap (λ t. sent k x ++ t) (all_sent-append k xs ys)
    ∙ sym (append_assoc (sent k x) (all_sent k xs) (all_sent k ys))

accessory_calls-sent :
    (chunks : List (List Part))
    → all_sent accessory (accessory_calls chunks) ≡ data_of (joined chunks)
unfolding accessory_calls
accessory_calls-sent [] = refl
accessory_calls-sent (chunk ∷ chunks) =
    ap (λ t. data_of chunk ++ t) (accessory_calls-sent chunks)
    ∙ sym (data_of-append chunk (joined chunks))

head_calls-sent :
    (chunks : List (List Part)) → all_sent head (head_calls chunks) ≡ data_of (joined chunks)
unfolding head_calls
head_calls-sent [] = refl
head_calls-sent (chunk ∷ chunks) =
    ap (λ t. data_of chunk ++ t) (head_calls-sent chunks)
    ∙ sym (data_of-append chunk (joined chunks))

accessory_calls-silent :
    (k : Kind) (chunks : List (List Part))
    → ((parts : List String) → sent k (add_many_accessories parts) ≡ [])
    → all_sent k (accessory_calls chunks) ≡ []
unfolding accessory_calls
accessory_calls-silent k [] h = refl
accessory_calls-silent k (chunk ∷ chunks) h =
    rw (h (data_of chunk)) (accessory_calls-silent k chunks h)

head_calls-silent :
    (k : Kind) (chunks : List (List Part))
    → ((parts : List String) → sent k (add_many_heads parts) ≡ [])
    → all_sent k (head_calls chunks) ≡ []
unfolding head_calls
head_calls-silent k [] h = refl
head_calls-silent k (chunk ∷ chunks) h = rw (h (data_of chunk)) (head_calls-silent k chunks h)

abbrev accessories_in_chunks : ImageData → List Call
accessories_in_chunks d = accessory_calls (chunk_array d.accessories 10)

abbrev heads_in_chunks : ImageData → List Call
heads_in_chunks d = head_calls (chunk_array d.heads 10)

tail-sent :
    (k : Kind) (d : ImageData) (last : Call)
    → all_sent k (accessories_in_chunks d ++ (heads_in_chunks d ++ last ∷ []))
      ≡ all_sent k (accessories_in_chunks d)
        ++ (all_sent k (heads_in_chunks d) ++ (sent k last ++ []))
tail-sent k d last =
    all_sent-append k (accessories_in_chunks d) (heads_in_chunks d ++ last ∷ [])
    ∙ ap (λ t. all_sent k (accessories_in_chunks d) ++ t)
        (all_sent-append k (heads_in_chunks d) (last ∷ []))

no_accessories :
    (k : Kind) (d : ImageData)
    → ((parts : List String) → sent k (add_many_accessories parts) ≡ [])
    → all_sent k (accessories_in_chunks d) ≡ []
no_accessories k d h = accessory_calls-silent k (chunk_array d.accessories 10) h

no_heads :
    (k : Kind) (d : ImageData)
    → ((parts : List String) → sent k (add_many_heads parts) ≡ [])
    → all_sent k (heads_in_chunks d) ≡ []
no_heads k d h = head_calls-silent k (chunk_array d.heads 10) h

-- The calls of the task send the parts of every kind, each once and in their order.
pub populate_descriptor-all_sent :
    (k : Kind) (d : ImageData) → all_sent k (populate_descriptor d) ≡ parts_of d k
unfolding populate_descriptor
populate_descriptor-all_sent background d =
    rw
      (
        tail-sent background d (add_many_glasses (data_of d.glasses)),
        no_accessories background d (λ p. refl),
        no_heads background d (λ p. refl),
      )
      (append_nil d.bgcolors)
populate_descriptor-all_sent body d =
    rw
      (
        tail-sent body d (add_many_glasses (data_of d.glasses)),
        no_accessories body d (λ p. refl),
        no_heads body d (λ p. refl),
      )
      (append_nil (data_of d.bodies))
populate_descriptor-all_sent accessory d =
    rw
      (
        tail-sent accessory d (add_many_glasses (data_of d.glasses)),
        accessory_calls-sent (chunk_array d.accessories 10),
        no_heads accessory d (λ p. refl),
        chunk_array-joined d.accessories 10 (omega arith),
      )
      (append_nil (data_of d.accessories))
populate_descriptor-all_sent head d =
    rw
      (
        tail-sent head d (add_many_glasses (data_of d.glasses)),
        no_accessories head d (λ p. refl),
        head_calls-sent (chunk_array d.heads 10),
        chunk_array-joined d.heads 10 (omega arith),
      )
      (append_nil (data_of d.heads))
populate_descriptor-all_sent glass d =
    rw
      (
        tail-sent glass d (add_many_glasses (data_of d.glasses)),
        no_accessories glass d (λ p. refl),
        no_heads glass d (λ p. refl),
      )
      (append_nil (data_of d.glasses))

-- The calls that are made are the first ones, and all of them when none fails.
run_calls-first :
    (succeeds : Call → Bool) (calls : List Call)
    → (rest : List Call) × ((run_calls succeeds calls).0 ++ rest ≡ calls)
      × (((run_calls succeeds calls).1 ≡ false) ⊎ (rest ≡ []))
unfolding run_calls
run_calls-first succeeds [] = ([], refl, inr refl)
run_calls-first succeeds (call ∷ calls) = elim (Bool-cases (succeeds call)) [
  | inl e ↦
      let (rest, q, done) = run_calls-first succeeds calls in
      rw e (rest, ap (λ t. call ∷ t) q, done)
  | inr e ↦ rw e (call ∷ calls, refl, inl refl)
]

-- Whichever calls fail, the parts of each kind that the calls before sent are the first ones of that
-- kind in their order; they are all of them when no call failed.
pub run_calls-populate_descriptor :
    (succeeds : Call → Bool) (d : ImageData) (k : Kind)
    → (rest : List String) × (all_sent k (run_calls succeeds (populate_descriptor d)).0 ++ rest
        ≡ parts_of d k)
      × (((run_calls succeeds (populate_descriptor d)).1 ≡ false) ⊎ (rest ≡ []))
run_calls-populate_descriptor succeeds d k =
    let (rest, q, done) = run_calls-first succeeds (populate_descriptor d) in
    let made = (run_calls succeeds (populate_descriptor d)).0 in
    (
      all_sent k rest,
      sym (all_sent-append k made rest)
          ∙ ap (λ t. all_sent k t) q
          ∙ populate_descriptor-all_sent k d,
      elim done [ inl e ↦ inl e | inr e ↦ inr (ap (λ t. all_sent k t) e) ],
    )
