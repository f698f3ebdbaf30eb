-- ===== src/Webapp/TransactionForm/Submit.antt =====
-- What the last step of the form submits.
use theword_monorepo.Prelude.{
  ℕ, zero, suc, ◌≡◌, refl, Bool, true, false, Option, none, some, List, [], ◌∷◌, arith, ◌==◌,
}
use theword_monorepo.Sdk.Hex.{Text}
use theword_monorepo.Webapp.TransactionForm.{
  ModalState, empty_at, steps_backwards, clear_state, last_step, Tools, arguments_validator,
  value_text, no_calldata, calldata_text, transaction, step_forward_or_callback,
}

module _ {Abi : Type 0} (tools : Tools Abi) where
  -- What the call data are of the function and the arguments: none of a transaction without a function,
  -- and the encoding otherwise.
  abbrev pub Encodes : Text → Option Abi → List (Option Text) → Text → Type 0
  Encodes [] abi args calldata = calldata ≡ no_calldata
  Encodes (c ∷ f) none args calldata = ⊥
  Encodes (c ∷ f) (some abi) args calldata = tools.encode_params abi (c ∷ f) args ≡ some calldata

  calldata-Encodes :
      (address value : Text) (func : Text) (abi : Option Abi) (args : List (Option Text))
      (valid : Option Bool) (file : Option Text) (step : ℕ)
      → arguments_validator tools (record {
        address = address;
        abi = abi;
        value = value;
        func = func;
        args = args;
        is_abi_upload_valid = valid;
        abi_file_name = file;
        current_step = step;
      })
        ≡ true
      → (calldata : Text) × ((calldata_text tools func abi args ≡ some calldata)
          × Encodes func abi args calldata)
  unfolding arguments_validator
  calldata-Encodes address value [] abi args valid file step h = (no_calldata, (refl, refl))
  calldata-Encodes address value (c ∷ f) none args valid file step h = cc
  calldata-Encodes address value (c ∷ f) (some abi) args valid file step h =
      encoded (tools.encode_params abi (c ∷ f) args) refl h
    where
      encoded :
          (o : Option Text)
          → tools.encode_params abi (c ∷ f) args ≡ o
          → ◌≡◌ {A = Bool} (elim o [ none ↦ false | some [] ↦ false | some (d ∷ t) ↦ true ]) true
          → (calldata : Text) × ((calldata_text tools (c ∷ f) (some abi) args ≡ some calldata)
              × (tools.encode_params abi (c ∷ f) args ≡ some calldata))
      encoded none e k = cc
      encoded (some []) e k = cc
      encoded (some (d ∷ t)) e k = (d ∷ t, (rw e refl, e))

  -- Going back as documented, from a step by as many steps, ends at the first one.
  back_to_start :
      (count : ℕ)
      → ((n : ℕ) → tools.step_backwards (suc n) ≡ n)
      → steps_backwards tools count count ≡ 0
  unfolding steps_backwards
  back_to_start zero back = refl
  back_to_start (suc n) back = rw (back n) (back_to_start n back)

  -- At the last step, if the arguments pass their validator and the value is empty or an amount that
  -- can be read, the form gives a transaction with its address, its function, that value and the
  -- encoding of the arguments, and is empty and at the first step for the next one, where the stepper
  -- goes back one step at a time.
  pub step_forward_or_callback-last :
      (s : ModalState Abi) (value : Text)
      → ((n : ℕ) → tools.step_backwards (suc n) ≡ n)
      → s.current_step ≡ last_step
      → arguments_validator tools s ≡ true
      → value_text tools s.value ≡ some value
      → (calldata : Text) × (Encodes s.func s.abi s.args calldata
          × (step_forward_or_callback tools s
              ≡ some (
                some (record {
                  address = s.address;
                  value = value;
                  signature = s.func;
                  calldata = calldata;
                }),
                empty_at 0,
              )))
  unfolding step_forward_or_callback transaction clear_state
  step_forward_or_callback-last s value back e h v =
      let (calldata, (c, k)) =
        calldata-Encodes s.address s.value s.func s.abi s.args s.is_abi_upload_valid s.abi_file_name
          s.current_step h in
      let last : (s.current_step == last_step) ≡ true = ground arith in
      (calldata, (k, rw (last, v, c, back_to_start s.current_step back) refl))
