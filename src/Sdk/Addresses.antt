-- ===== src/Sdk/Addresses.antt =====
-- contract/addresses.ts, contract/contracts.ts and contract/types.ts: the addresses of the deployed
-- contracts by chain, and the contracts connected to them. The factories are a parameter.
pub mod Known
use theword_monorepo.Prelude.{
  ℕ, ◌≡◌, refl, String, true, Option, none, some, List, [], ◌∷◌, ◌==◌, if◌then◌else◌,
}

pub record ContractAddresses : Type 0 where
  pub theword_token : String
  pub theword_seeder : String
  pub theword_descriptor : String
  pub nft_descriptor : String
  pub theword_offering_house : String
  pub theword_offering_house_proxy : String
  pub theword_offering_house_proxy_admin : String
  pub theword_dao_executor : String
  pub theword_dao_proxy : String
  pub theword_dao_logic_v1 : String

abbrev pub mainnet_addresses : ContractAddresses
mainnet_addresses = record {
  theword_token = "0x9C8fF314C9Bc7F6e59A9d9225Fb22946427eDC03";
  theword_seeder = "0xCC8a0FB5ab3C7132c1b2A0109142Fb112c4Ce515";
  theword_descriptor = "0x0Cfdb3Ba1694c2bb2CFACB0339ad7b1Ae5932B63";
  nft_descriptor = "0x0BBAd8c947210ab6284699605ce2a61780958264";
  theword_offering_house = "0xF15a943787014461d94da08aD4040f79Cd7c124e";
  theword_offering_house_proxy = "0x830BD73E4184ceF73443C15111a1DF14e495C706";
  theword_offering_house_proxy_admin = "0xC1C119932d78aB9080862C5fcb964029f086401e";
  theword_dao_executor = "0x0BC3807Ec262cB779b38D65b38158acC3bfedE10";
  theword_dao_proxy = "0x6f3E6272A167e8AcCb32072d08E0957F9c79223d";
  theword_dao_logic_v1 = "0xa43aFE317985726E4e194eb061Af77fbCb43F944";
}

abbrev pub rinkeby_addresses : ContractAddresses
rinkeby_addresses = record {
  theword_token = "0x632f34c3aee991b10D4b421Bc05413a03d7a37eB";
  theword_seeder = "0xA98A1b1Cc4f5746A753167BAf8e0C26AcBe42F2E";
  theword_descriptor = "0x53cB482c73655D2287AE3282AD1395F82e6a402F";
  nft_descriptor = "0x1F28f148ef5f9BD182cCEfeAD4240A505C54dc9B";
  theword_offering_house = "0xfAB74e535409A3ad1F7C2858dd2E5Da1eAAc6cE7";
  theword_offering_house_proxy = "0x7cb0384b923280269b3BD85f0a7fEaB776588382";
  theword_offering_house_proxy_admin = "0x04d0e5a8ADB5076C098f49F39B01A774c313597d";
  theword_dao_executor = "0x6F3940820288855418B7ef8E33a2eC23d9DeD59B";
  theword_dao_proxy = "0xd1C753D9A23eb5c57e0d023e993B9bd4F5086b04";
  theword_dao_logic_v1 = "0xdF05F2D3276F3F3fA00296702e4cf7190B78F6F9";
}

abbrev pub local_addresses : ContractAddresses
local_addresses = record {
  theword_token = "0xDc64a140Aa3E981100a9becA4E685f962f0cF6C9";
  theword_seeder = "0xCf7Ed3AccA5a467e9e704C703E8D87F634fB0Fc9";
  theword_descriptor = "0x9fE46736679d2D9a65F0992F2272dE9f3c7fa6e0";
  nft_descriptor = "0xe7f1725E7734CE288F8367e1Bb143E90bb3F0512";
  theword_offering_house = "0x5FC8d32690cc91D4c39d9d3abcBD16989F875707";
  theword_offering_house_proxy = "0xa513E6E4b8f2a923D98304ec87F64353C4D5C853";
  theword_offering_house_proxy_admin = "0x0165878A594ca255338adfa4d48449f69242Eb8F";
  theword_dao_executor = "0x2279B7A0a67DB372996a5FaB50D91eAA73d2eBe6";
  theword_dao_proxy = "0x610178dA211FEF7D417bC0e6FeD39F05609AD788";
  theword_dao_logic_v1 = "0x8A791620dd6260079BF849Dc5567aDC3F2FdC318";
}

-- `Mainnet`, `Rinkeby` and `Local` of `ChainId`.
abbrev pub chain_id_to_addresses : List (ℕ × ContractAddresses)
chain_id_to_addresses =
    (1, mainnet_addresses) ∷ (4, rinkeby_addresses) ∷ (31337, local_addresses) ∷ []

abbrev pub lookup : List (ℕ × ContractAddresses) → ℕ → Option ContractAddresses
lookup [] chain_id = none
lookup ((id, addresses) ∷ table) chain_id =
    let rest = lookup table chain_id in if id == chain_id then some addresses else rest

-- `none` is the exception for an unknown chain.
unfoldable pub get_contract_addresses_for_chain_or_throw : ℕ → Option ContractAddresses
get_contract_addresses_for_chain_or_throw chain_id = lookup chain_id_to_addresses chain_id

-- The factories whose `connect` makes the contracts.
pub data Factory : Type 0 where
  token_factory : Factory
  offering_house_factory : Factory
  descriptor_factory : Factory
  seeder_factory : Factory
  dao_factory : Factory

pub record Contracts {ℓ} (C : Type ℓ) : Type ℓ where
  pub theword_token_contract : C
  pub theword_offering_house_contract : C
  pub theword_descriptor_contract : C
  pub theword_seeder_contract : C
  pub theword_dao_contract : C

unfoldable pub get_contracts_for_chain_or_throw {ℓ} :
    {C P : Type ℓ} → (Factory → String → P → C) → ℕ → P → Option (Contracts C)
get_contracts_for_chain_or_throw connect chain_id signer =
    elim (get_contract_addresses_for_chain_or_throw chain_id) [
      | none ↦ none
      | some addresses ↦ some (record {
        theword_token_contract = connect token_factory addresses.theword_token signer;
        theword_offering_house_contract =
            connect offering_house_factory addresses.theword_offering_house_proxy signer;
        theword_descriptor_contract =
            connect descriptor_factory addresses.theword_descriptor signer;
        theword_seeder_contract = connect seeder_factory addresses.theword_seeder signer;
        theword_dao_contract = connect dao_factory addresses.theword_dao_proxy signer;
      })
    ]
