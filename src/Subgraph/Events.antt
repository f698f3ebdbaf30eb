-- ===== src/Subgraph/Events.antt =====
-- The events that subgraph.yaml hands to the handlers, and the index of a sequence of them.
pub mod Keeps
use theword_monorepo.Prelude.{String, List, [], ◌∷◌}
use theword_monorepo.Prelude.Int.{ℤ}
use theword_monorepo.Subgraph.Entities.{Store}
use theword_monorepo.Subgraph.House.{
  OfferingCreated, handle_offering_created, OfferingBid, handle_offering_bid, OfferingExtended,
  handle_offering_extended, OfferingSettled, handle_offering_settled,
}
use theword_monorepo.Subgraph.Dao.{
  ProposalCreated, handle_proposal_created, handle_proposal_canceled, handle_proposal_vetoed,
  handle_proposal_queued, handle_proposal_executed, VoteCast, handle_vote_cast,
}
use theword_monorepo.Subgraph.Token.{
  TheWordCreated, handle_the_word_created, DelegateChanged, handle_delegate_changed,
  DelegateVotesChanged, handle_delegate_votes_changed, Transfer, handle_transfer,
}

pub data Event : Type 0 where
  offering_created : OfferingCreated → Event
  offering_bid : OfferingBid → Event
  offering_extended : OfferingExtended → Event
  offering_settled : OfferingSettled → Event
  proposal_created : ProposalCreated → Event
  proposal_canceled : String → Event
  proposal_vetoed : String → Event
  proposal_queued : String → ℤ → Event
  proposal_executed : String → Event
  vote_cast : VoteCast → Event
  the_word_created : TheWordCreated → Event
  delegate_changed : DelegateChanged → Event
  delegate_votes_changed : DelegateVotesChanged → Event
  transfer : Transfer → Event

unfoldable pub handle : Event → Store → Store
handle (offering_created e) s = handle_offering_created e s
handle (offering_bid e) s = handle_offering_bid e s
handle (offering_extended e) s = handle_offering_extended e s
handle (offering_settled e) s = handle_offering_settled e s
handle (proposal_created e) s = handle_proposal_created e s
handle (proposal_canceled id) s = handle_proposal_canceled id s
handle (proposal_vetoed id) s = handle_proposal_vetoed id s
handle (proposal_queued id eta) s = handle_proposal_queued id eta s
handle (proposal_executed id) s = handle_proposal_executed id s
handle (vote_cast e) s = handle_vote_cast e s
handle (the_word_created e) s = handle_the_word_created e s
handle (delegate_changed e) s = handle_delegate_changed e s
handle (delegate_votes_changed e) s = handle_delegate_votes_changed e s
handle (transfer e) s = handle_transfer e s

unfoldable pub index : List Event → Store → Store
index [] s = s
index (e ∷ es) s = index es (handle e s)
