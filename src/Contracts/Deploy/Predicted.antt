-- ===== src/Contracts/Deploy/Predicted.antt =====
-- The addresses that the scripts predict are those that the contracts get.
use theword_monorepo.Prelude.{
  ℕ, zero, suc, ◌+◌, ◌≡◌, String, Bool, true, false, ◌&&◌, Option, none, some, List, [], ◌∷◌, ◌++◌,
  arith, ◌==◌, if◌then◌else◌, str_eq, inl, inr, Bool-cases,
}
use theword_monorepo.Contracts.Deploy.{
  ContractName, the_word_token, the_word_offering_house_proxy, the_word_dao_executor,
  the_word_dao_proxy, same_name, Contract, Deployment, CallValue, Value, single, defined, encoded,
  undefined, address_in, call_value, arg_value, TaskArgs, plain_contract, weth, address_of,
  contracts, deploy_one, deploy_confirmed, deploy_all, deploy, deploy_local, text,
}

-- No argument is undefined.
abbrev pub is_defined : CallValue → Bool
is_defined undefined = false
is_defined _ = true

abbrev pub are_defined : List CallValue → Bool
are_defined [] = true
are_defined (v ∷ vs) = is_defined v && are_defined vs

abbrev pub is_defined_arg : Value → Bool
is_defined_arg (single v) = is_defined v
is_defined_arg (encoded vs) = are_defined vs

abbrev pub args_are_defined : List Value → Bool
args_are_defined [] = true
args_are_defined (v ∷ vs) = is_defined_arg v && args_are_defined vs

abbrev pub all_defined : List Deployment → Bool
all_defined [] = true
all_defined (d ∷ ds) = args_are_defined d.args && are_defined d.libraries && all_defined ds

-- The first text among the arguments that a contract was deployed with, at a place.
abbrev pub value_at : ℕ → List Value → Option Value
value_at i [] = none
value_at zero (v ∷ vs) = some v
value_at (suc i) (v ∷ vs) = value_at i vs

abbrev pub arg_of : ContractName → ℕ → List Deployment → Option Value
arg_of name i [] = none
arg_of name i (d ∷ ds) = if same_name d.name name then value_at i d.args else arg_of name i ds

-- An argument of a contract is the address that another one has, if that one is deployed.
abbrev pub Agrees : Option Value → Option String → Type 0
Agrees arg none = Unit
Agrees arg (some a) = arg ≡ some (single (defined a))

-- No argument is undefined, and the token's minter is the proxy of the offering house and the
-- executor's admin the proxy of the DAO.
pub record IsPredicted (ds : List Deployment) : Type 0 where
  pub known : all_defined ds ≡ true
  pub minter : Agrees (arg_of the_word_token 1 ds) (address_in the_word_offering_house_proxy ds)
  pub admin : Agrees (arg_of the_word_dao_executor 0 ds) (address_in the_word_dao_proxy ds)

module _ (contract_address : ℕ → String) (nonce : ℕ) where
  -- What holds before each of the deployments, and after the last one.
  abbrev pub Always : (List Deployment → Type 0) → List Contract → ℕ → List Deployment → Type 0
  Always P [] sent ds = P ds
  Always P (c ∷ cs) sent ds =
      P ds × Always P cs (sent + 1) (ds ++ deploy_one contract_address nonce c sent ds ∷ [])

  deploy_confirmed-Always :
      (P : List Deployment → Type 0) (cs : List Contract) (answers : List String) (sent : ℕ)
      (ds : List Deployment)
      → Always P cs sent ds
      → P (deploy_confirmed contract_address nonce cs answers sent ds)
  unfolding deploy_confirmed
  deploy_confirmed-Always P [] answers sent ds h = h
  deploy_confirmed-Always P (c ∷ cs) [] sent ds (h, later) = h
  deploy_confirmed-Always P (c ∷ cs) (answer ∷ answers) sent ds (h, later) =
      elim (Bool-cases (str_eq answer "DEPLOY")) [
        | inr other ↦ rw other h
        | inl confirmed ↦ rw confirmed (
            deploy_confirmed-Always P cs answers (sent + 1)
              (ds ++ deploy_one contract_address nonce c sent ds ∷ []) later)
      ]

  deploy_all-Always :
      (P : List Deployment → Type 0) (cs : List Contract) (sent : ℕ) (ds : List Deployment)
      → Always P cs sent ds
      → P (deploy_all contract_address nonce cs sent ds)
  unfolding deploy_all
  deploy_all-Always P [] sent ds h = h
  deploy_all-Always P (c ∷ cs) sent ds (h, later) =
      deploy_all-Always P cs (sent + 1) (ds ++ deploy_one contract_address nonce c sent ds ∷ [])
        later

  contracts-Always :
      (t : TaskArgs) (thewordders registry weth_address : String)
      → Always IsPredicted
          (contracts t thewordders registry
            (contract_address (nonce + 6))
            (contract_address (nonce + 9))
            (text weth_address))
          0
          []
  unfolding contracts address_in call_value arg_value
  contracts-Always t thewordders registry weth_address = ground arith

  local-Always :
      (t : TaskArgs) (thewordders registry : String)
      → Always IsPredicted
          (plain_contract weth
            ∷ contracts t thewordders registry
                (contract_address (nonce + 7))
                (contract_address (nonce + 10))
                (address_of weth))
          0
          []
  unfolding contracts address_in call_value arg_value
  local-Always t thewordders registry = ground arith

  -- Whatever the user answers, wherever the script stops, and on whichever chain, no contract is
  -- deployed with an argument or a library that is undefined; and if the proxy of the offering house
  -- is deployed, its address is the minter that the token was given, and if the proxy of the DAO is,
  -- its address is the admin that the executor was given. The script for the local chain is the same.
  pub deploy-IsPredicted :
      (chain_id : ℕ) (t : TaskArgs) (answers : List String) (theworddersdao : Option String)
      (deployer : String)
      → IsPredicted (deploy contract_address nonce chain_id t answers)
        × IsPredicted (deploy_local contract_address nonce chain_id t theworddersdao deployer)
  unfolding deploy deploy_local address_in
  deploy-IsPredicted chain_id t answers theworddersdao deployer = (
    deploy_confirmed-Always IsPredicted _ answers 0 [] (contracts-Always t _ _ _),
    elim (Bool-cases (chain_id == 31337)) [
      | inl here ↦ rw here (deploy_all-Always IsPredicted _ 0 [] (local-Always t _ _))
      | inr elsewhere ↦ rw elsewhere (ground arith)
    ],
  )
