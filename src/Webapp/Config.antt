-- ===== src/Webapp/Config.antt =====
-- config.ts: the addresses of the contracts for the chain of the application.
use theword_monorepo.Prelude.{ℕ, String, Option, none, some, ◌==◌, if◌then◌else◌}
use theword_monorepo.Sdk.Addresses.{ContractAddresses, get_contract_addresses_for_chain_or_throw}

-- The addresses of the SDK, or no key of them after an exception, with the external ones; the address
-- of a token may be `undefined`.
pub record Addresses : Type 0 where
  pub theword_addresses : Option ContractAddresses
  pub lido_token : Option String

-- The outer `none` is a chain id without an entry, whose spread adds no key; the inner one is
-- `undefined`.
abbrev pub external_addresses : ℕ → Option (Option String)
external_addresses chain_id =
    if chain_id == 4
    then some (some "0xF4242f9d78DB7218Ad72Ee3aE14469DBDE8731eD")
    else if chain_id == 1
    then some (some "0xae7ab96520DE3A18E5e111B5EaAb095312D7fE84")
    else if chain_id == 31337
    then some none
    else none

abbrev pub value_of : Option (Option String) → Option String
value_of none = none
value_of (some token) = token

unfoldable pub get_addresses : ℕ → Addresses
get_addresses chain_id = record {
  theword_addresses = get_contract_addresses_for_chain_or_throw chain_id;
  lido_token = value_of (external_addresses chain_id);
}
