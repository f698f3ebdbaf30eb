-- ===== src/Contracts/Deploy/Tests.antt =====
-- The scripts with concrete addresses, and the theorem at them.
use theword_monorepo.Prelude.{
  ℕ, ◌≡◌, refl, String, none, List, [], ◌∷◌, ◌==◌, if◌then◌else◌, length,
}
use theword_monorepo.Contracts.Deploy.{
  TaskArgs, contracts, deploy_confirmed, deploy_all, deploy, deploy_local,
}
use theword_monorepo.Contracts.Deploy.Predicted.{IsPredicted, deploy-IsPredicted}

abbrev contract_address : ℕ → String
contract_address n = if n == 9 then "0x09" else if n == 12 then "0x0c" else "0xff"

abbrev task_args : TaskArgs
task_args = record {
  theworddersdao = "0xda";
  weth_address = "0xee";
  offering_time_buffer = 300;
  offering_reserve_price = 1;
  offering_min_increment_bid_percentage = 5;
  offering_duration = 86400;
  timelock_delay = 172800;
  voting_period = 17280;
  voting_delay = 1;
  proposal_threshold_bps = 500;
  quorum_votes_bps = 1000;
}

-- The user stops after three contracts.
abbrev three : List String
three = "DEPLOY" ∷ "DEPLOY" ∷ "DEPLOY" ∷ "no" ∷ "DEPLOY" ∷ []

deploy-IsPredicted_example :
    IsPredicted (deploy contract_address 3 31337 task_args three)
    × IsPredicted (deploy_local contract_address 3 31337 task_args none "0xd0")
deploy-IsPredicted_example = deploy-IsPredicted contract_address 3 31337 task_args three none "0xd0"

three_deployed : length (deploy contract_address 3 1 task_args three) ≡ 3
unfolding deploy deploy_confirmed contracts
three_deployed = refl

eleven_deployed : length (deploy_local contract_address 3 31337 task_args none "0xd0") ≡ 11
unfolding deploy_local deploy_all contracts
eleven_deployed = refl
