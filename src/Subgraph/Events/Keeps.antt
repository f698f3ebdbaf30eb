-- ===== src/Subgraph/Events/Keeps.antt =====
-- Every event keeps the invariant of the store.
use theword_monorepo.Prelude.{List, [], ◌∷◌}
use theword_monorepo.Subgraph.Entities.{Store}
use theword_monorepo.Subgraph.Consistent.{IsConsistent}
use theword_monorepo.Subgraph.House.Keeps.{
  handle_offering_created-IsConsistent, handle_offering_bid-IsConsistent,
  handle_offering_extended-IsConsistent, handle_offering_settled-IsConsistent,
}
use theword_monorepo.Subgraph.Dao.Keeps.{
  handle_proposal_created-IsConsistent, handle_proposal_canceled-IsConsistent,
  handle_proposal_vetoed-IsConsistent, handle_proposal_queued-IsConsistent,
  handle_proposal_executed-IsConsistent, handle_vote_cast-IsConsistent,
}
use theword_monorepo.Subgraph.Token.Keeps.{
  handle_the_word_created-IsConsistent, handle_delegate_changed-IsConsistent,
  handle_delegate_votes_changed-IsConsistent, handle_transfer-IsConsistent,
}
use theword_monorepo.Subgraph.Events.{
  Event, offering_created, offering_bid, offering_extended, offering_settled, proposal_created,
  proposal_canceled, proposal_vetoed, proposal_queued, proposal_executed, vote_cast,
  the_word_created, delegate_changed, delegate_votes_changed, transfer, handle, index,
}

pub handle-IsConsistent : {s : Store} → IsConsistent s → (e : Event) → IsConsistent (handle e s)
unfolding handle
handle-IsConsistent h (offering_created e) = handle_offering_created-IsConsistent h e
handle-IsConsistent h (offering_bid e) = handle_offering_bid-IsConsistent h e
handle-IsConsistent h (offering_extended e) = handle_offering_extended-IsConsistent h e
handle-IsConsistent h (offering_settled e) = handle_offering_settled-IsConsistent h e
handle-IsConsistent h (proposal_created e) = handle_proposal_created-IsConsistent h e
handle-IsConsistent h (proposal_canceled id) = handle_proposal_canceled-IsConsistent h id
handle-IsConsistent h (proposal_vetoed id) = handle_proposal_vetoed-IsConsistent h id
handle-IsConsistent h (proposal_queued id eta) = handle_proposal_queued-IsConsistent h id eta
handle-IsConsistent h (proposal_executed id) = handle_proposal_executed-IsConsistent h id
handle-IsConsistent h (vote_cast e) = handle_vote_cast-IsConsistent h e
handle-IsConsistent h (the_word_created e) = handle_the_word_created-IsConsistent h e
handle-IsConsistent h (delegate_changed e) = handle_delegate_changed-IsConsistent h e
handle-IsConsistent h (delegate_votes_changed e) = handle_delegate_votes_changed-IsConsistent h e
handle-IsConsistent h (transfer e) = handle_transfer-IsConsistent h e

-- Whatever the events, in whatever order, an index that starts from a consistent store stays
-- consistent: accounts, delegates, proposals and offerings stand under their own ids, the plain
-- balances and votes equal the raw ones, and so do the votes of the governance entity.
pub index-IsConsistent :
    (events : List Event) {s : Store} → IsConsistent s → IsConsistent (index events s)
unfolding index
index-IsConsistent [] h = h
index-IsConsistent (e ∷ events) h = index-IsConsistent events (handle-IsConsistent h e)
