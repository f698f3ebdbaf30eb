-- ===== src/Webapp/TransactionForm.antt =====
-- components/ProposalTransactionFormModal: the form of one transaction of a proposal. The interfaces and
-- the conversions of ethers, the answers of Etherscan and the stepper of react-stepz are parameters;
-- `none` is an exception.
pub mod Submit
mod Tests
use theword_monorepo.Prelude.{
  ℕ, zero, suc, ◌+◌, Bool, true, false, not, ◌&&◌, ◌||◌, Option, none, some, List, [], ◌∷◌, ◌==◌,
  if◌then◌else◌,
}
use theword_monorepo.Sdk.Hex.{Text}
use theword_monorepo.Webapp.Governance.Form.{ProposalTransaction}

-- What the modal keeps. An argument that was skipped is `none`.
pub record ModalState (Abi : Type 0) : Type 0 where
  pub address : Text
  pub abi : Option Abi
  pub value : Text
  pub func : Text
  pub args : List (Option Text)
  pub is_abi_upload_valid : Option Bool
  pub abi_file_name : Option Text
  pub current_step : ℕ

-- A state with empty fields, at a step.
abbrev pub empty_at : {Abi : Type 0} → ℕ → ModalState Abi
empty_at step = record {
  address = [];
  abi = none;
  value = [];
  func = [];
  args = [];
  is_abi_upload_valid = none;
  abi_file_name = none;
  current_step = step;
}

-- A contract as Etherscan knows it.
pub record ContractInformation : Type 0 where
  pub proxy : Text
  pub implementation : Text
  pub abi : Text

-- `values[index] = value` on an array that may be shorter.
abbrev pub set_at : ℕ → Text → List (Option Text) → List (Option Text)
set_at zero value [] = some value ∷ []
set_at zero value (a ∷ args) = some value ∷ args
set_at (suc index) value [] = none ∷ set_at index value []
set_at (suc index) value (a ∷ args) = a ∷ set_at index value args

-- The steps: address, value, function, arguments and summary.
abbrev pub last_step : ℕ
last_step = 4

pub record Tools (Abi : Type 0) : Type 0 where
  pub is_address : Text → Bool
  pub is_nan : Text → Bool
  pub interface : Text → Option Abi
  pub encode_params : Abi → Text → List (Option Text) → Option Text
  pub parse_ether : Text → Option Text
  pub information : Text → Option (Option ContractInformation)
  pub step_forward : Bool → ℕ → ℕ
  pub step_backwards : ℕ → ℕ

abbrev pub is_one : Text → Bool
is_one (c ∷ []) = c == b'1'
is_one _ = false

abbrev pub abi_of : Option ContractInformation → Option Text
abi_of none = none
abi_of (some info) = some info.abi

abbrev pub abi_at : Option (Option ContractInformation) → Option Text
abi_at none = none
abi_at (some info) = abi_of info

abbrev pub etherscan_file : Text
etherscan_file =
    b'e' ∷ b't' ∷ b'h' ∷ b'e' ∷ b'r' ∷ b's' ∷ b'c' ∷ b'a' ∷ b'n' ∷ b'-' ∷ b'a' ∷ b'b' ∷ b'i' ∷ b'-'
    ∷ b'd' ∷ b'o' ∷ b'w' ∷ b'n' ∷ b'l' ∷ b'o' ∷ b'a' ∷ b'd' ∷ b'.' ∷ b'j' ∷ b's' ∷ b'o' ∷ b'n' ∷ []

abbrev pub no_calldata : Text
no_calldata = b'0' ∷ b'x' ∷ []

abbrev pub or_no_calldata : Option Text → Option Text
or_no_calldata none = none
or_no_calldata (some []) = some no_calldata
or_no_calldata (some (d ∷ t)) = some (d ∷ t)

abbrev pub set_argument : {Abi : Type 0} → ℕ → Text → ModalState Abi → ModalState Abi
set_argument index value s = record s { args = set_at index value s.args }

abbrev pub set_abi_invalid : {Abi : Type 0} → ModalState Abi → ModalState Abi
set_abi_invalid s = record s { is_abi_upload_valid = some false; abi_file_name = none }

module _ {Abi : Type 0} (tools : Tools Abi) where
  -- `stepBackwards` so many times.
  unfoldable pub steps_backwards : ℕ → ℕ → ℕ
  steps_backwards zero step = step
  steps_backwards (suc count) step = steps_backwards count (tools.step_backwards step)

  -- The fields are emptied, and the stepper goes back as many steps as the current one has before it.
  unfoldable pub clear_state : ModalState Abi → ModalState Abi
  clear_state s = empty_at (steps_backwards s.current_step s.current_step)

  abbrev pub value_validator : Text → Bool
  value_validator [] = true
  value_validator (c ∷ v) = not (tools.is_nan (c ∷ v))

  -- The encoding is not empty text where there is one.
  unfoldable pub arguments_validator : ModalState Abi → Bool
  arguments_validator s = elim s.func [
    | [] ↦ true
    | c ∷ f ↦ elim s.abi [
      | none ↦ false
      | some abi ↦ elim (tools.encode_params abi (c ∷ f) s.args) [
        | none ↦ false
        | some [] ↦ false
        | some (d ∷ t) ↦ true
      ]
    ]
  ]

  -- A file by its name and its text. After five seconds the mark of an invalid one is taken back.
  unfoldable pub validate_and_set_abi : Option (Text × Text) → ModalState Abi → ModalState Abi
  validate_and_set_abi none s = s
  validate_and_set_abi (some (name, text)) s = elim (tools.interface text) [
    | none ↦ set_abi_invalid s
    | some abi ↦ record s {
      abi = some abi;
      is_abi_upload_valid = some true;
      abi_file_name = some name;
    }
  ]

  -- For a proxy the contract behind it is asked for; a contract without information is an exception.
  unfoldable pub get_abi : Text → Option Text
  get_abi address = elim (tools.information address) [
    | none ↦ none
    | some none ↦ none
    | some (some info) ↦
        if is_one info.proxy && tools.is_address info.implementation
        then abi_at (tools.information info.implementation)
        else some info.abi
  ]

  abbrev populate_from : Option Abi → ModalState Abi → ModalState Abi
  populate_from none s = record s { is_abi_upload_valid = none; abi_file_name = none }
  populate_from (some abi) s = record s {
    abi = some abi;
    is_abi_upload_valid = some true;
    abi_file_name = some etherscan_file;
  }

  abbrev interface_at : Option Text → Option Abi
  interface_at none = none
  interface_at (some text) = tools.interface text

  -- An exception leaves the interface as it was.
  unfoldable pub populate_abi_if_exists : Text → ModalState Abi → ModalState Abi
  populate_abi_if_exists address s = populate_from (interface_at (get_abi address)) s

  -- The validator of a step; that of the address also starts the search for an interface.
  unfoldable pub validator : ModalState Abi → Bool
  validator s =
      if s.current_step == 0
      then tools.is_address s.address
      else if s.current_step == 1
      then value_validator s.value
      else if s.current_step == 3
      then arguments_validator s
      else true

  abbrev pub value_text : Text → Option Text
  value_text [] = some (b'0' ∷ [])
  value_text (c ∷ v) = tools.parse_ether (c ∷ v)

  -- `(func && abi?._encodeParams(...)) || '0x'`
  abbrev pub calldata_text : Text → Option Abi → List (Option Text) → Option Text
  calldata_text [] abi args = some no_calldata
  calldata_text (c ∷ f) none args = some no_calldata
  calldata_text (c ∷ f) (some abi) args = or_no_calldata (tools.encode_params abi (c ∷ f) args)

  -- The transaction of the form; `none` is an exception.
  unfoldable pub transaction : ModalState Abi → Option ProposalTransaction
  transaction s = elim (value_text s.value) [
    | none ↦ none
    | some value ↦ elim (calldata_text s.func s.abi s.args) [
      | none ↦ none
      | some calldata ↦
          some
            (record { address = s.address; value = value; signature = s.func; calldata = calldata })
    ]
  ]

  -- The button: one step forward, or, at the last step, the transaction for the proposal and a cleared
  -- form.
  unfoldable pub step_forward_or_callback :
      ModalState Abi → Option (Option ProposalTransaction × ModalState Abi)
  step_forward_or_callback s =
      if s.current_step == last_step
      then elim (transaction s) [ none ↦ none | some t ↦ some (some t, clear_state s) ]
      else some (none, record s { current_step = tools.step_forward (validator s) s.current_step })
