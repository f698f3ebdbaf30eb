-- ===== src/Sdk/Addresses/Known.antt =====
-- The chains that contract/addresses.ts knows.
use theword_monorepo.Prelude.{
  ℕ, ◌≡◌, refl, ◌⊎◌, inl, inr, Bool-cases, none, some, ◌==◌, String, arith,
}
use theword_monorepo.Sdk.Addresses.{
  ContractAddresses, get_contract_addresses_for_chain_or_throw, get_contracts_for_chain_or_throw,
  Factory,
}

-- There are addresses for the chains 1, 4 and 31337 only.
pub known_chains :
    (chain_id : ℕ) (addresses : ContractAddresses)
    → get_contract_addresses_for_chain_or_throw chain_id ≡ some addresses
    → (chain_id ≡ 1) ⊎ ((chain_id ≡ 4) ⊎ (chain_id ≡ 31337))
unfolding get_contract_addresses_for_chain_or_throw
known_chains chain_id addresses h = elim (Bool-cases (1 == chain_id)) [
  | inl e ↦ inl (ground arith)
  | inr e ↦ elim (Bool-cases (4 == chain_id)) [
    | inl e4 ↦ inr (inl (ground arith))
    | inr e4 ↦ elim (Bool-cases (31337 == chain_id)) [
      | inl e5 ↦ inr (inr (ground arith))
      | inr e5 ↦ absurd (cc h)
    ]
  ]
]

-- Kovan and Ropsten, which `ChainId` names, have none: the contracts cannot be made there.
pub no_ropsten {ℓ} :
    {C P : Type ℓ} (connect : Factory → String → P → C) (signer : P)
    → get_contracts_for_chain_or_throw connect 3 signer ≡ none
unfolding get_contracts_for_chain_or_throw get_contract_addresses_for_chain_or_throw
no_ropsten connect signer = refl
