-- ===== src/Webapp/TransactionForm/Tests.antt =====
-- The form with concrete tools, and the theorems at them.
use theword_monorepo.Prelude.{
  arith, ◌-◌, ◌≡◌, refl, true, false, none, some, [], ◌∷◌, ◌==◌, if◌then◌else◌, Option,
}
use theword_monorepo.Sdk.Hex.{Text}
use theword_monorepo.Webapp.TransactionForm.{
  ModalState, empty_at, Tools, arguments_validator, step_forward_or_callback, get_abi,
  ContractInformation,
}
use theword_monorepo.Webapp.TransactionForm.Submit.{Encodes, step_forward_or_callback-last}

-- An interface is its text. Etherscan knows a proxy `p` and the contract `c` behind it.
abbrev proxy : ContractInformation
proxy = record { proxy = b'1' ∷ []; implementation = b'c' ∷ []; abi = b'x' ∷ [] }

abbrev behind : ContractInformation
behind = record { proxy = b'0' ∷ []; implementation = []; abi = b'y' ∷ [] }

abbrev known : Text → Option (Option ContractInformation)
known (c ∷ []) =
    if c == b'p' then some (some proxy) else if c == b'c' then some (some behind) else none
known _ = none

abbrev tools : Tools Text
tools = record {
  is_address = λ t. true;
  is_nan = λ t. false;
  interface = λ t. some t;
  encode_params = λ abi func args. some (b'0' ∷ b'x' ∷ b'1' ∷ []);
  parse_ether = λ t. some t;
  information = known;
  step_forward = λ valid step. step;
  step_backwards = λ step. step - 1;
}

abbrev filled : ModalState Text
filled = record {
  address = b'p' ∷ [];
  abi = some (b'y' ∷ []);
  value = b'3' ∷ [];
  func = b'f' ∷ [];
  args = some (b'7' ∷ []) ∷ [];
  is_abi_upload_valid = some true;
  abi_file_name = none;
  current_step = 4;
}

submitted :
    (calldata : Text) × (Encodes tools filled.func filled.abi filled.args calldata
      × (step_forward_or_callback tools filled
          ≡ some (
            some (record {
              address = filled.address;
              value = b'3' ∷ [];
              signature = filled.func;
              calldata = calldata;
            }),
            empty_at 0,
          )))
unfolding arguments_validator
submitted = step_forward_or_callback-last tools filled (b'3' ∷ []) (λ n. omega arith) refl refl refl

-- The interface is that of the contract behind the proxy.
behind_the_proxy : get_abi tools (b'p' ∷ []) ≡ some (b'y' ∷ [])
unfolding get_abi
behind_the_proxy = refl
