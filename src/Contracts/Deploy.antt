-- ===== src/Contracts/Deploy.antt =====
-- deploy.ts and deploy-local.ts: the order of the contracts, their arguments and the loop that deploys
-- them. The address of a contract by the deployer's nonce and the encoding of a call are parameters;
-- estimates, prices and confirmations are left out.
pub mod Predicted
mod Tests
use theword_monorepo.Prelude.{
  ℕ, zero, suc, ◌+◌, String, Bool, true, false, ◌&&◌, ◌||◌, Option, none, some, List, [], ◌∷◌, ◌++◌,
  map, ◌==◌, if◌then◌else◌, str_eq,
}

pub data ContractName : Type 0 where
  weth : ContractName
  nft_descriptor : ContractName
  the_word_descriptor : ContractName
  the_word_seeder : ContractName
  the_word_token : ContractName
  the_word_offering_house : ContractName
  the_word_offering_house_proxy_admin : ContractName
  the_word_offering_house_proxy : ContractName
  the_word_dao_executor : ContractName
  the_word_dao_logic_v1 : ContractName
  the_word_dao_proxy : ContractName

abbrev pub number_of : ContractName → ℕ
number_of weth = 0
number_of nft_descriptor = 1
number_of the_word_descriptor = 2
number_of the_word_seeder = 3
number_of the_word_token = 4
number_of the_word_offering_house = 5
number_of the_word_offering_house_proxy_admin = 6
number_of the_word_offering_house_proxy = 7
number_of the_word_dao_executor = 8
number_of the_word_dao_logic_v1 = 9
number_of the_word_dao_proxy = 10

abbrev pub same_name : ContractName → ContractName → Bool
same_name a b = number_of a == number_of b

-- An argument: a text, a number, the address that a contract has when the argument is asked for, or the
-- call that initialises the offering house, with its own arguments.
pub data CallArg : Type 0 where
  text : String → CallArg
  amount : ℕ → CallArg
  address_of : ContractName → CallArg

pub data Arg : Type 0 where
  plain : CallArg → Arg
  initialize : List CallArg → Arg

-- What an argument is when a contract is deployed; `undefined` is the address of none, which ethers
-- refuses.
pub data CallValue : Type 0 where
  defined : String → CallValue
  number : ℕ → CallValue
  undefined : CallValue

pub data Value : Type 0 where
  single : CallValue → Value
  encoded : List CallValue → Value

pub record Contract : Type 0 where
  pub name : ContractName
  pub args : List Arg
  pub libraries : List ContractName
  pub wait_for_confirmation : Bool

pub record Deployment : Type 0 where
  pub name : ContractName
  pub args : List Value
  pub libraries : List CallValue
  pub address : String

-- The address of a contract that is deployed.
unfoldable pub address_in : ContractName → List Deployment → Option String
address_in name [] = none
address_in name (d ∷ ds) = if same_name d.name name then some d.address else address_in name ds

abbrev pub value_or_undefined : Option String → CallValue
value_or_undefined none = undefined
value_or_undefined (some a) = defined a

unfoldable pub call_value : List Deployment → CallArg → CallValue
call_value ds (text s) = defined s
call_value ds (amount n) = number n
call_value ds (address_of name) = value_or_undefined (address_in name ds)

unfoldable pub arg_value : List Deployment → Arg → Value
arg_value ds (plain a) = single (call_value ds a)
arg_value ds (initialize args) = encoded (map (λ a. call_value ds a) args)

-- The parameters of the task.
pub record TaskArgs : Type 0 where
  pub theworddersdao : String
  pub weth_address : String
  pub offering_time_buffer : ℕ
  pub offering_reserve_price : ℕ
  pub offering_min_increment_bid_percentage : ℕ
  pub offering_duration : ℕ
  pub timelock_delay : ℕ
  pub voting_period : ℕ
  pub voting_delay : ℕ
  pub proposal_threshold_bps : ℕ
  pub quorum_votes_bps : ℕ

abbrev pub plain_contract : ContractName → Contract
plain_contract name = record {
  name = name;
  args = [];
  libraries = [];
  wait_for_confirmation = false;
}

-- The contracts that both scripts deploy, in their order, from the address of the DAO of the
-- founders, the registry, the two addresses that are predicted, and the WETH contract.
unfoldable pub contracts : TaskArgs → String → String → String → String → CallArg → List Contract
contracts t thewordders registry house_proxy dao_proxy weth_arg =
    plain_contract nft_descriptor
    ∷ record (plain_contract the_word_descriptor) { libraries = nft_descriptor ∷ [] }
    ∷ plain_contract the_word_seeder
    ∷ record (plain_contract the_word_token) {
      args =
          plain (text thewordders)
          ∷ plain (text house_proxy)
          ∷ plain (address_of the_word_descriptor)
          ∷ plain (address_of the_word_seeder)
          ∷ plain (text registry)
          ∷ [];
    }
    ∷ record (plain_contract the_word_offering_house) { wait_for_confirmation = true }
    ∷ plain_contract the_word_offering_house_proxy_admin
    ∷ record (plain_contract the_word_offering_house_proxy) {
      args =
          plain (address_of the_word_offering_house)
          ∷ plain (address_of the_word_offering_house_proxy_admin)
          ∷ initialize (
              address_of the_word_token
              ∷ weth_arg
              ∷ amount t.offering_time_buffer
              ∷ amount t.offering_reserve_price
              ∷ amount t.offering_min_increment_bid_percentage
              ∷ amount t.offering_duration
              ∷ [])
          ∷ [];
    }
    ∷ record (plain_contract the_word_dao_executor) {
      args = plain (text dao_proxy) ∷ plain (amount t.timelock_delay) ∷ [];
    }
    ∷ record (plain_contract the_word_dao_logic_v1) { wait_for_confirmation = true }
    ∷ record (plain_contract the_word_dao_proxy) {
      args =
          plain (address_of the_word_dao_executor)
          ∷ plain (address_of the_word_token)
          ∷ plain (text thewordders)
          ∷ plain (address_of the_word_dao_executor)
          ∷ plain (address_of the_word_dao_logic_v1)
          ∷ plain (amount t.voting_period)
          ∷ plain (amount t.voting_delay)
          ∷ plain (amount t.proposal_threshold_bps)
          ∷ plain (amount t.quorum_votes_bps)
          ∷ [];
    }
    ∷ []

-- `contract_address` is the address of the contract that the deployer makes with a nonce. The account
-- sends nothing else meanwhile, so each deployment takes the next nonce.
module _ (contract_address : ℕ → String) (nonce : ℕ) where
  abbrev pub deploy_one : Contract → ℕ → List Deployment → Deployment
  deploy_one c sent ds = record {
    name = c.name;
    args = map (λ a. arg_value ds a) c.args;
    libraries = map (λ l. call_value ds (address_of l)) c.libraries;
    address = contract_address (nonce + sent);
  }

  -- deploy.ts: each deployment waits for the answer `DEPLOY`, and any other answer ends the script.
  unfoldable pub deploy_confirmed :
      List Contract → List String → ℕ → List Deployment → List Deployment
  deploy_confirmed [] answers sent ds = ds
  deploy_confirmed (c ∷ cs) [] sent ds = ds
  deploy_confirmed (c ∷ cs) (answer ∷ answers) sent ds =
      let rest = deploy_confirmed cs answers (sent + 1) (ds ++ deploy_one c sent ds ∷ []) in
      if str_eq answer "DEPLOY" then rest else ds

  -- deploy-local.ts: the same loop without questions.
  unfoldable pub deploy_all : List Contract → ℕ → List Deployment → List Deployment
  deploy_all [] sent ds = ds
  deploy_all (c ∷ cs) sent ds = deploy_all cs (sent + 1) (ds ++ deploy_one c sent ds ∷ [])

  unfoldable pub deploy : ℕ → TaskArgs → List String → List Deployment
  deploy chain_id t answers =
      let registry : String =
        if chain_id == 1
        then "0xa5409ec958c83c3f309868babaca7c86dcb077c1"
        else "0xf57b2c51ded3a29e6891aba85459d600256cf317" in
      deploy_confirmed
        (contracts t t.theworddersdao registry (contract_address (nonce + 6))
          (contract_address (nonce + 9)) (text t.weth_address))
        answers 0 []

  -- On another chain than that of hardhat nothing is deployed. Without the parameter, or with an empty
  -- one, the DAO of the founders is the deployer.
  unfoldable pub deploy_local : ℕ → TaskArgs → Option String → String → List Deployment
  deploy_local chain_id t theworddersdao deployer =
      let thewordders : String = elim theworddersdao [
        | none ↦ deployer
        | some s ↦ if str_eq s "" then deployer else s
      ] in
      if chain_id == 31337
      then deploy_all
          (plain_contract weth
            ∷ contracts t thewordders "0xa5409ec958c83c3f309868babaca7c86dcb077c1"
                (contract_address (nonce + 7)) (contract_address (nonce + 10)) (address_of weth))
          0 []
      else []
