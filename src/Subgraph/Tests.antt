-- ===== src/Subgraph/Tests.antt =====
-- Runs of the handlers on concrete events, and the theorems at them.
use theword_monorepo.Prelude.{◌≡◌, refl, none, some, List, [], ◌∷◌, ◌++◌, arith, eq_iff, false}
use theword_monorepo.Prelude.Int.{pos, ◌+ℤ◌}
use theword_monorepo.Prelude.Table.{load, save}
use theword_monorepo.Subgraph.Entities.{Store, Delegate, Offering, empty, zero_address, bigint_one}
use theword_monorepo.Subgraph.Helpers.{get_governance_entity, delegate_of, account_of}
use theword_monorepo.Subgraph.Consistent.{IsConsistent, IsConsistent-empty}
use theword_monorepo.Subgraph.House.{
  OfferingCreated, handle_offering_created, OfferingSettled, OfferingBid,
}
use theword_monorepo.Subgraph.Dao.{ProposalCreated, VoteCast}
use theword_monorepo.Subgraph.Token.{
  TheWordCreated, DelegateVotesChanged, DelegateChanged, Transfer, handle_transfer,
  handle_the_word_created, handle_delegate_votes_changed, update_from_holder, update_to_holder,
  has_left, has_joined,
}
use theword_monorepo.Subgraph.Token.Balances.{
  balance, owner, handle_transfer_balances, handle_transfer_owner,
}
use theword_monorepo.Subgraph.Token.Delegates.{mint_loses_count}
use theword_monorepo.Subgraph.Events.{
  Event, offering_created, offering_bid, offering_settled, proposal_created, proposal_queued,
  vote_cast, the_word_created, delegate_changed, delegate_votes_changed, transfer, handle, index,
}
use theword_monorepo.Subgraph.Events.Keeps.{index-IsConsistent}
use theword_monorepo.Prelude.Totals.{total}
use theword_monorepo.Subgraph.Tally.Invariant.{IsTallied, index-IsTallied}
use theword_monorepo.Subgraph.Lifecycle.Proposals.{status, run_status, index_status}
use theword_monorepo.Subgraph.Lifecycle.Offerings.{HasContinued, index-continues}

abbrev minted : Transfer
minted = record { from = zero_address; to = "0xa1"; token_id = "1" }

abbrev sold : Transfer
sold = record { from = "0xa1"; to = "0xb2"; token_id = "1" }

abbrev created : TheWordCreated
created = record {
  token_id = "1";
  background = pos 0;
  body = pos 3;
  accessory = pos 4;
  head = pos 5;
  glasses = pos 6;
  hash = "0xff";
}

abbrev delegated : DelegateChanged
delegated = record { delegator = "0xa1"; from_delegate = "0xa1"; to_delegate = "0xc3" }

abbrev gained : DelegateVotesChanged
gained = record { delegate = "0xc3"; previous_balance = pos 0; new_balance = pos 1 }

abbrev gained_more : DelegateVotesChanged
gained_more = record { delegate = "0xc3"; previous_balance = pos 1; new_balance = pos 4 }

abbrev offered : OfferingCreated
offered = record { theword_id = "1"; start_time = pos 100; end_time = pos 200; hash = "0xfe" }

abbrev a_bid : OfferingBid
a_bid = record {
  theword_id = "1";
  sender = "0xb2";
  value = pos 7;
  hash = "0xfd";
  index = pos 0;
  block_number = pos 12;
  block_timestamp = pos 150;
}

abbrev settled : OfferingSettled
settled = record { theword_id = "1"; hash = "0xfc" }

abbrev proposed : ProposalCreated
proposed = record {
  id = "1";
  proposer = "0xc3";
  targets = "0xd4" ∷ [];
  values = pos 0 ∷ [];
  signatures = "f()" ∷ [];
  calldatas = "0x" ∷ [];
  start_block = pos 20;
  end_block = pos 30;
  proposal_threshold = pos 1;
  quorum_votes = pos 1;
  description = "text";
  block_number = pos 10;
  timestamp = pos 140;
  hash = "0xfb";
}

abbrev a_vote : VoteCast
a_vote = record { voter = "0xc3"; proposal_id = "1"; support = 1; votes = pos 1; hash = "0xfa" }

abbrev token_events : List Event
token_events = the_word_created created ∷ transfer minted ∷ delegate_changed delegated ∷ []

abbrev vote_events : List Event
vote_events =
    delegate_votes_changed gained
    ∷ proposal_created proposed
    ∷ vote_cast a_vote
    ∷ proposal_queued "1" (pos 500)
    ∷ []

index-IsConsistent_example : IsConsistent (index (token_events ++ vote_events) empty)
index-IsConsistent_example = index-IsConsistent (token_events ++ vote_events) IsConsistent-empty

index-IsTallied_example :
    IsTallied
      (index (delegate_votes_changed gained ∷ delegate_votes_changed gained_more ∷ []) empty)
unfolding handle load save handle_delegate_votes_changed delegate_of total
index-IsTallied_example =
    index-IsTallied (delegate_votes_changed gained ∷ delegate_votes_changed gained_more ∷ [])
      IsConsistent-empty (refl, (refl, tt)) refl

-- A transfer to oneself adds a token.
handle_transfer_balances_example :
    balance (handle_transfer (record { from = "0xa1"; to = "0xa1"; token_id = "1" }) empty) "0xa1"
    ≡ balance empty "0xa1" +ℤ bigint_one
handle_transfer_balances_example =
    handle_transfer_balances (record { from = "0xa1"; to = "0xa1"; token_id = "1" }) empty
      IsConsistent-empty "0xa1"

handle_transfer_owner_example : owner (handle_transfer minted empty) "1" ≡ some "0xa1"
handle_transfer_owner_example = handle_transfer_owner minted empty IsConsistent-empty "1"

index_status_example :
    status (index vote_events empty) "1" ≡ run_status vote_events "1" (status empty "1")
index_status_example = index_status vote_events empty IsConsistent-empty "1"

-- The offering that the events of a sale start from.
abbrev first_offering : Offering
first_offering = record {
  id = "1";
  theword = "1";
  amount = pos 0;
  start_time = pos 100;
  end_time = pos 200;
  bidder = none;
  settled = false;
}

abbrev sale_events : List Event
sale_events = offering_bid a_bid ∷ offering_settled settled ∷ transfer sold ∷ []

abbrev offered_store : Store
offered_store =
    index (the_word_created created ∷ transfer minted ∷ offering_created offered ∷ []) empty

index-continues_example :
    HasContinued (index sale_events offered_store).offerings "1" first_offering
unfolding index handle handle_the_word_created handle_transfer handle_offering_created load save
    update_from_holder update_to_holder has_left has_joined ◌+ℤ◌ account_of delegate_of
index-continues_example =
    index-continues sale_events offered_store
      (index-IsConsistent
        (the_word_created created ∷ transfer minted ∷ offering_created offered ∷ [])
        IsConsistent-empty)
      "1" first_offering (tt, (tt, (tt, tt))) refl

mint_loses_count_example :
    ((get_governance_entity (handle_transfer minted empty)).total_delegates
      ≡ (get_governance_entity empty).total_delegates)
    × ((d : Delegate) × (load (handle_transfer minted empty).delegates "0xa1" ≡ some d))
unfolding load
mint_loses_count_example =
    mint_loses_count minted empty IsConsistent-empty refl
      (ground (arith, eq_iff "0xa1" zero_address)) refl refl
