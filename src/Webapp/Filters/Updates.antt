-- ===== src/Webapp/Filters/Updates.antt =====
-- The updater asks for the logs of a block once, and what was asked for is shown when it is answered.
use theword_monorepo.Prelude.{
  ℕ, ◌≡◌, refl, ap, ◌∙◌, inl, inr, String, Bool, true, false, none, some, List, [], ◌∷◌, map, arith,
  if◌then◌else◌, str_eq, eq_iff, eq_refl, includes, filter, All, Bool-cases, Option-cases,
}
use theword_monorepo.Prelude.Table.{load, save, load-save}
use theword_monorepo.Webapp.Logs.{FetchState, LogsState, fetching_logs}
use theword_monorepo.Webapp.Filters.{
  EventFilter, filter_to_key, keys, needs_fetch, keys_needing, filters_of, filters_need_fetch,
  update,
}
use theword_monorepo.Webapp.Filters.Stable.{IsStable}

keys-save :
    (s : LogsState) (key : String) (f g : FetchState)
    → load s key ≡ some f
    → keys (save s key g) ≡ keys s
unfolding load save
keys-save [] key f g h = cc
keys-save ((j, e) ∷ s) key f g h = elim (Bool-cases (str_eq j key)) [
  | inl same ↦ rw same refl
  | inr other ↦ rw other (ap (λ (l : List String). j ∷ l) (keys-save s key f g (rw other at h)))
]

keys-fetching_logs :
    (ks : List String) (block_number : ℕ) (s : LogsState)
    → keys (fetching_logs ks block_number s) ≡ keys s
unfolding fetching_logs
keys-fetching_logs [] block_number s = refl
keys-fetching_logs (key ∷ ks) block_number s = elim (Option-cases (load s key)) [
  | inl h ↦ rw h (keys-fetching_logs ks block_number s)
  | inr (f, h) ↦ rw h (keys-fetching_logs ks block_number _ ∙ keys-save s key f _ h)
]

needs_fetch-marked :
    (block_number : ℕ) (f : FetchState)
    → needs_fetch block_number (some (record f { fetching_block_number = some block_number }))
      ≡ false
unfolding needs_fetch
needs_fetch-marked block_number f = ground arith

-- A key that is marked needs no fetch, and the others are as before.
needs_fetch-save :
    (s : LogsState) (key j : String) (block_number : ℕ) (f : FetchState)
    → load s key ≡ some f
    → needs_fetch block_number
        (load (save s key (record f { fetching_block_number = some block_number })) j)
      ≡ (if str_eq key j then false else needs_fetch block_number (load s j))
needs_fetch-save s key j block_number f h = elim (Bool-cases (str_eq key j)) [
  | inl same ↦
      rw (load-save s key j (record f { fetching_block_number = some block_number }), same)
        (needs_fetch-marked block_number f)
  | inr other ↦
      rw (load-save s key j (record f { fetching_block_number = some block_number }), other) refl
]

-- A key that is missing needs no fetch.
needs_fetch-missing :
    (s : LogsState) (key j : String) (block_number : ℕ)
    → load s key ≡ none
    → needs_fetch block_number (load s j)
      ≡ (if str_eq key j then false else needs_fetch block_number (load s j))
unfolding needs_fetch
needs_fetch-missing s key j block_number h = elim (Bool-cases (str_eq key j)) [
  | inl same ↦ let e : key ≡ j = (eq_iff key j).0 same in rw (same, ← e, h) refl
  | inr other ↦ rw other refl
]

needs_fetch-fetching_logs :
    (ks : List String) (block_number : ℕ) (s : LogsState) (j : String)
    → needs_fetch block_number (load (fetching_logs ks block_number s) j)
      ≡ (if includes ks j then false else needs_fetch block_number (load s j))
unfolding fetching_logs
needs_fetch-fetching_logs [] block_number s j = refl
needs_fetch-fetching_logs (key ∷ ks) block_number s j = elim (Option-cases (load s key)) [
  | inl h ↦
      rw (h, needs_fetch-fetching_logs ks block_number s j)
        (ground (arith, needs_fetch-missing s key j block_number h))
  | inr (f, h) ↦
      let s1 = save s key (record f { fetching_block_number = some block_number }) in
      rw (h, needs_fetch-fetching_logs ks block_number s1 j)
        (ground (arith, needs_fetch-save s key j block_number f h))
]

-- A filter by a test that fails where the first one held, and nowhere holds where it failed.
filter-none :
    (p q : String → Bool) (all : List String) (ks : List String)
    → ((j : String) → q j ≡ (if includes all j then false else p j))
    → ((j : String) → p j ≡ true → includes ks j ≡ true → includes all j ≡ true)
    → filter q ks ≡ []
filter-none p q all [] e c = refl
filter-none p q all (k ∷ ks) e c =
    let rest = filter-none p q all ks e (λ j h i. c j h (ground (arith, i))) in
    let here : q k ≡ false = ground (arith, e k, c k, eq_refl k) in rw here rest

includes-filter :
    (p : String → Bool) (ks : List String) (j : String)
    → p j ≡ true
    → includes ks j ≡ true
    → includes (filter p ks) j ≡ true
includes-filter p [] j h i = i
includes-filter p (k ∷ ks) j h i = elim (Bool-cases (p k)) [
  | inl keep ↦ rw keep (ground (arith, includes-filter p ks j h))
  | inr out ↦ rw out (ground (arith, includes-filter p ks j h, eq_iff k j))
]

-- Marking the keys that need a fetch leaves none that does.
pub keys_needing-fetching_logs :
    (block_number : ℕ) (s : LogsState)
    → keys_needing block_number (fetching_logs (keys_needing block_number s) block_number s) ≡ []
unfolding keys_needing
keys_needing-fetching_logs block_number s =
    let needing = filter (λ (key : String). needs_fetch block_number (load s key)) (keys s) in
    rw (keys-fetching_logs needing block_number s) (
      filter-none (λ j. needs_fetch block_number (load s j))
        (λ j. needs_fetch block_number (load (fetching_logs needing block_number s) j)) needing
        (keys s) (needs_fetch-fetching_logs needing block_number s)
        (λ j h i. includes-filter (λ k. needs_fetch block_number (load s k)) (keys s) j h i))

-- Stable keys come back from their filters.
filters_of-stable :
    (ks : List String)
    → All IsStable ks
    → (filters : List EventFilter) × ((filters_of ks ≡ some filters)
        × (map filter_to_key filters ≡ ks))
unfolding filters_of
filters_of-stable [] h = ([], (refl, refl))
filters_of-stable (k ∷ ks) ((g, (e, b)), rest) =
    let (gs, (es, bs)) = filters_of-stable ks rest in (g ∷ gs, (rw (e, es) refl, cc (b, bs)))

All-filter : (p : String → Bool) (ks : List String) → All IsStable ks → All IsStable (filter p ks)
All-filter p [] h = tt
All-filter p (k ∷ ks) (h, rest) = elim (Bool-cases (p k)) [
  | inl keep ↦ rw keep (h, All-filter p ks rest)
  | inr out ↦ rw out (All-filter p ks rest)
]

update_from :
    (block_number : ℕ) (s : LogsState) (filters : List EventFilter)
    → filters_of (keys_needing block_number s) ≡ some filters
    → map filter_to_key filters ≡ keys_needing block_number s
    → (t : LogsState) × ((filters : List EventFilter) × (((update true (some block_number) s
              ≡ some (t, filters))
            × (map filter_to_key filters ≡ keys_needing block_number s))
          × (update true (some block_number) t ≡ some (t, []))))
unfolding update filters_need_fetch filters_of
update_from block_number s [] e k = (s, ([], ((rw (e, update) refl, k), rw (e, update) refl)))
update_from block_number s (f ∷ filters) e k =
    let t = fetching_logs (map filter_to_key (f ∷ filters)) block_number s in
    let done : keys_needing block_number t ≡ [] =
      rw k (keys_needing-fetching_logs block_number s) in
    (t, (f ∷ filters, ((rw (e, update) refl, k), rw (done, update) refl)))

-- If every key of the store is stable, the effect of the updater with a library at a block asks for the
-- filters of exactly the keys that need a fetch, and after it none needs one at that block: the effect
-- that its own dispatch causes does nothing.
pub update_once :
    (block_number : ℕ) (s : LogsState)
    → All IsStable (keys s)
    → (t : LogsState) × ((filters : List EventFilter) × (((update true (some block_number) s
              ≡ some (t, filters))
            × (map filter_to_key filters ≡ keys_needing block_number s))
          × (update true (some block_number) t ≡ some (t, []))))
unfolding keys_needing
update_once block_number s h =
    let p = λ (key : String). needs_fetch block_number (load s key) in
    let (filters, (e, k)) = filters_of-stable (filter p (keys s)) (All-filter p (keys s) h) in
    update_from block_number s filters e k
