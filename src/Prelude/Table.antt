-- ===== src/Prelude/Table.antt =====
-- Tables from text keys to values, as association lists: the store of the entities of one type,
-- a JavaScript object or a `Map` with text keys. Saving replaces the value in its place, or adds
-- an entry at the end, which is the order in which a `Map` gives its entries.
use mathlib.Core.Path.{subst₂}
use theword_monorepo.Prelude.{
  String, ◌≡◌, refl, Option, none, some, inl, inr, List, [], ◌∷◌, arith, str_eq, eq_iff, eq_refl,
  if◌then◌else◌, Bool-cases,
}

abbrev pub Table {ℓ} : Type ℓ → Type ℓ
Table V = List (String × V)

module _ {ℓ} {V : Type ℓ} where
  unfoldable pub load : Table V → String → Option V
  load [] k = none
  load ((j, v) ∷ t) k = if str_eq j k then some v else load t k

  unfoldable pub save : Table V → String → V → Table V
  save [] k v = (k, v) ∷ []
  save ((j, w) ∷ t) k v = if str_eq j k then (j, v) ∷ t else (j, w) ∷ save t k v

  pub load-save :
      (t : Table V) (k j : String) (v : V)
      → load (save t k v) j ≡ (if str_eq k j then some v else load t j)
  unfolding load save
  load-save [] k j v = refl
  load-save ((i, w) ∷ t) k j v =
      ground (arith, eq_iff k j, eq_iff i k, eq_iff i j, load-save t k j v)

  -- What holds of every entry that a load finds.
  abbrev pub Entries {κ} : (String → V → Type κ) → Table V → Type (ℓ ⊔ κ)
  Entries P t = (k : String) (v : V) → load t k ≡ some v → P k v

  pub Entries-nil {κ} : (P : String → V → Type κ) → Entries P []
  unfolding load
  Entries-nil P k v h = cc

  pub Entries-save {κ} :
      (P : String → V → Type κ) (t : Table V) {k : String} {v : V}
      → Entries P t
      → P k v
      → Entries P (save t k v)
  Entries-save P t {k} {v} h p j w e = elim (Bool-cases (str_eq k j)) [
    | inl same ↦
        let found : v ≡ w = ground (arith, load-save t k j v) in
        subst₂ P ((eq_iff k j).0 same) found p
    | inr other ↦ h j w (ground (arith, load-save t k j v))
  ]

-- What was saved is what is loaded.
pub load-save_self {ℓ} :
    {V : Type ℓ} (t : Table V) (k : String) (v : V) → load (save t k v) k ≡ some v
load-save_self t k v = rw (load-save t k k v) (rw (eq_refl k))
