-- ===== src/Prelude/Totals.antt =====
-- Sums over the entries of a table.
use theword_monorepo.Prelude.{
  String, ◌≡◌, Option, none, some, [], ◌∷◌, str_eq, inl, inr, Bool-cases,
}
use theword_monorepo.Prelude.Int.{ℤ, pos, ◌+ℤ◌, int_laws, parts_of_eq}
use theword_monorepo.Prelude.Table.{Table, load, save}

module _ {ℓ} {V : Type ℓ} (f : V → ℤ) where
  unfoldable pub total : Table V → ℤ
  total [] = pos 0
  total ((k, v) ∷ t) = f v +ℤ total t

  -- What a key adds to the sum; nothing, where the table has no entry.
  abbrev pub share : Option V → ℤ
  share none = pos 0
  share (some v) = f v

  -- Saving at a key replaces its share.
  pub total-save :
      (t : Table V) (k : String) (v : V) → total (save t k v) +ℤ share (load t k) ≡ total t +ℤ f v
  unfolding total load save
  total-save [] k v = omega int_laws
  total-save ((j, w) ∷ t) k v = elim (Bool-cases (str_eq j k)) [
    | inl same ↦ rw same (omega int_laws)
    | inr other ↦ rw other (omega (int_laws, parts_of_eq (total-save t k v)))
  ]

  -- Saving a value with the share that the key has keeps the sum.
  pub total-save_same :
      (t : Table V) (k : String) (v : V) → share (load t k) ≡ f v → total (save t k v) ≡ total t
  total-save_same t k v h = omega (int_laws, parts_of_eq (total-save t k v), parts_of_eq h)
