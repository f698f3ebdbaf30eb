-- ===== src/Subgraph/Entities.antt =====
-- The entities of schema.graphql as the handlers of packages/theword-subgraph/src write them, and
-- the store that holds them. A field that the constructor of an entity leaves unset until a
-- handler assigns it is an `Option`. `BigInt` is ℤ, and an `i32` is its pattern of 32 bits.
-- `load` of an entity gives a copy: an assignment reaches the store by `save` only.
use theword_monorepo.Prelude.{
  ℕ, ◌+◌, ◌-◌, ◌%◌, ◌^◌, String, Bool, Option, none, List, [], ◌∷◌, ◌++◌,
}
use theword_monorepo.Prelude.Int.{ℤ, pos}
use theword_monorepo.Prelude.Table.{Table}

-- utils/constants.ts
abbrev pub zero_address : String
zero_address = "0x0000000000000000000000000000000000000000"

abbrev pub bigint_zero : ℤ
bigint_zero = pos 0

abbrev pub bigint_one : ℤ
bigint_one = pos 1

pub data Status : Type 0 where
  pending cancelled vetoed executed queued active : Status

pub record Account : Type 0 where
  pub id : String
  pub delegate : Option String
  pub token_balance_raw : ℤ
  pub token_balance : ℤ
  pub total_tokens_held_raw : ℤ
  pub total_tokens_held : ℤ
  pub theword : List String

pub record Delegate : Type 0 where
  pub id : String
  pub delegated_votes_raw : ℤ
  pub delegated_votes : ℤ
  pub token_holders_represented_amount : ℕ
  pub theword_represented : List String

-- What ProposalCreatedWithRequirements sets besides the status and the ETA.
pub record Details : Type 0 where
  pub proposer : String
  pub targets : List String
  pub values : List ℤ
  pub signatures : List String
  pub calldatas : List String
  pub created_timestamp : ℤ
  pub start_block : ℤ
  pub end_block : ℤ
  pub proposal_threshold : ℤ
  pub quorum_votes : ℤ
  pub description : String

pub record Proposal : Type 0 where
  pub id : String
  pub details : Option Details
  pub status : Option Status
  pub execution_eta : Option ℤ

pub record Ballot : Type 0 where
  pub proposal : String
  pub voter : String
  pub votes_raw : ℤ
  pub votes : ℤ
  pub support : Bool
  pub support_detailed : ℕ
  pub theword : List String

pub record Vote : Type 0 where
  pub id : String
  pub ballot : Option Ballot

pub record Governance : Type 0 where
  pub proposals : ℤ
  pub total_token_holders : ℤ
  pub current_token_holders : ℤ
  pub current_delegates : ℤ
  pub total_delegates : ℤ
  pub delegated_votes_raw : ℤ
  pub delegated_votes : ℤ
  pub proposals_queued : ℤ

pub record Seed : Type 0 where
  pub id : String
  pub background : ℤ
  pub body : ℤ
  pub accessory : ℤ
  pub head : ℤ
  pub glasses : ℤ

pub record TheWord : Type 0 where
  pub id : String
  pub seed : Option String
  pub owner : Option String

pub record Offering : Type 0 where
  pub id : String
  pub theword : String
  pub amount : ℤ
  pub start_time : ℤ
  pub end_time : ℤ
  pub bidder : Option String
  pub settled : Bool

pub record Bid : Type 0 where
  pub id : String
  pub bidder : String
  pub amount : ℤ
  pub theword : String
  pub tx_index : ℤ
  pub block_number : ℤ
  pub block_timestamp : ℤ
  pub offering : String

-- A call of `log.error`: the handler, and the arguments of its message.
pub record Message : Type 0 where
  pub handler : String
  pub arguments : List String

pub record Store : Type 0 where
  pub accounts : Table Account
  pub delegates : Table Delegate
  pub proposals : Table Proposal
  pub votes : Table Vote
  pub governance : Option Governance
  pub seeds : Table Seed
  pub thewords : Table TheWord
  pub offerings : Table Offering
  pub bids : Table Bid
  pub messages : List Message

abbrev pub empty : Store
empty = record {
  accounts = [];
  delegates = [];
  proposals = [];
  votes = [];
  governance = none;
  seeds = [];
  thewords = [];
  offerings = [];
  bids = [];
  messages = [];
}

abbrev pub log_error : String → List String → Store → Store
log_error handler arguments s = record s {
  messages = s.messages ++ record { handler = handler; arguments = arguments } ∷ [];
}

-- `x += 1` and `x -= 1` on an `i32`.
abbrev pub increment_i32 : ℕ → ℕ
increment_i32 x = (x + 1) % 2 ^ 32

abbrev pub decrement_i32 : ℕ → ℕ
decrement_i32 x = (x + 2 ^ 32 - 1) % 2 ^ 32
