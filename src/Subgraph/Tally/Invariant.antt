-- ===== src/Subgraph/Tally/Invariant.antt =====
-- The governance entity counts the votes of all delegates.
use theword_monorepo.Prelude.{◌≡◌, sym, ap, ◌∙◌, List, [], ◌∷◌, arith}
use theword_monorepo.Prelude.Int.{int_laws, parts_of_eq}
use theword_monorepo.Prelude.Totals.{total-save}
use theword_monorepo.Subgraph.Entities.{Delegate, Governance, Store}
use theword_monorepo.Subgraph.Helpers.{delegate_of, get_governance_entity}
use theword_monorepo.Subgraph.Consistent.{IsConsistent, delegate_of-keeps}
use theword_monorepo.Subgraph.House.{
  OfferingCreated, handle_offering_created, OfferingBid, handle_offering_bid, OfferingExtended,
  handle_offering_extended, OfferingSettled, handle_offering_settled,
}
use theword_monorepo.Subgraph.Token.{
  TheWordCreated, handle_the_word_created, DelegateVotesChanged, handle_delegate_votes_changed,
  count_current_delegates,
}
use theword_monorepo.Subgraph.Events.{
  Event, offering_created, offering_bid, offering_extended, offering_settled, proposal_created,
  proposal_canceled, proposal_vetoed, proposal_queued, proposal_executed, vote_cast,
  the_word_created, delegate_changed, delegate_votes_changed, transfer, handle, index,
}
use theword_monorepo.Subgraph.Events.Keeps.{handle-IsConsistent}
use theword_monorepo.Subgraph.Tally.{
  votes_of, tally, stored_votes, counted_votes, SameVotes, SameVotes-trans, SameVotes-of_eq,
}
use theword_monorepo.Subgraph.Tally.Parts.{delegate_of-SameVotes, account_of-SameVotes}
use theword_monorepo.Subgraph.Tally.Handlers.{
  handle_proposal_created-SameVotes, handle_proposal_canceled-SameVotes,
  handle_proposal_vetoed-SameVotes, handle_proposal_queued-SameVotes,
  handle_proposal_executed-SameVotes, handle_vote_cast-SameVotes, handle_delegate_changed-SameVotes,
}
use theword_monorepo.Subgraph.Tally.Transfers.{handle_transfer-SameVotes}

module _ (s : Store) where
  handle_offering_created-SameVotes :
      (e : OfferingCreated) → SameVotes s (handle_offering_created e s)
  unfolding handle_offering_created
  handle_offering_created-SameVotes e = SameVotes-of_eq (ground arith) (ground arith)

  handle_offering_bid-SameVotes : (e : OfferingBid) → SameVotes s (handle_offering_bid e s)
  unfolding handle_offering_bid
  handle_offering_bid-SameVotes e =
      SameVotes-trans (account_of-SameVotes e.sender s)
        (SameVotes-of_eq (ground arith) (ground arith))

  handle_offering_extended-SameVotes :
      (e : OfferingExtended) → SameVotes s (handle_offering_extended e s)
  unfolding handle_offering_extended
  handle_offering_extended-SameVotes e = SameVotes-of_eq (ground arith) (ground arith)

  handle_offering_settled-SameVotes :
      (e : OfferingSettled) → SameVotes s (handle_offering_settled e s)
  unfolding handle_offering_settled
  handle_offering_settled-SameVotes e = SameVotes-of_eq (ground arith) (ground arith)

  handle_the_word_created-SameVotes :
      (e : TheWordCreated) → SameVotes s (handle_the_word_created e s)
  unfolding handle_the_word_created
  handle_the_word_created-SameVotes e = SameVotes-of_eq (ground arith) (ground arith)

abbrev pub IsTallied : Store → Type 0
IsTallied s = counted_votes s ≡ tally s

count_current_delegates_votes :
    (e : DelegateVotesChanged) (g : Governance)
    → (count_current_delegates e g).delegated_votes_raw ≡ g.delegated_votes_raw
count_current_delegates_votes e g = ground arith

handle_delegate_votes_changed-IsTallied :
    {s : Store}
    → IsConsistent s
    → (e : DelegateVotesChanged) → e.previous_balance ≡ stored_votes s e.delegate
    → IsTallied s
    → IsTallied (handle_delegate_votes_changed e s)
unfolding handle_delegate_votes_changed
handle_delegate_votes_changed-IsTallied {s} h e reported t =
    let (d, s1) = delegate_of e.delegate s in
    let same = delegate_of-SameVotes e.delegate s in
    let d' : Delegate = record d {
      delegated_votes_raw = e.new_balance;
      delegated_votes = e.new_balance;
    } in
    let replaced = total-save votes_of s1.delegates d.id d' in
    let before : stored_votes s1 d.id ≡ e.previous_balance =
      ap (stored_votes s1) (delegate_of-keeps h e.delegate).0.id
      ∙ same.stored e.delegate
      ∙ sym reported in
    let counted = count_current_delegates_votes e (get_governance_entity s) in
    omega (
      int_laws,
      parts_of_eq replaced,
      parts_of_eq before,
      parts_of_eq counted,
      parts_of_eq same.tally,
      parts_of_eq t,
    )

-- Each event of a change of votes reports the votes that the store has for the delegate.
abbrev pub ReportsVotes : Event → Store → Type 0
ReportsVotes (delegate_votes_changed e) s = e.previous_balance ≡ stored_votes s e.delegate
ReportsVotes _ s = Unit

abbrev pub ReportAllVotes : List Event → Store → Type 0
ReportAllVotes [] s = Unit
ReportAllVotes (e ∷ es) s = ReportsVotes e s × ReportAllVotes es (handle e s)

SameVotes-IsTallied : {s t : Store} → SameVotes s t → IsTallied s → IsTallied t
SameVotes-IsTallied same t = same.counted ∙ t ∙ sym same.tally

handle-IsTallied :
    {s : Store}
    → IsConsistent s
    → (e : Event) → ReportsVotes e s
    → IsTallied s
    → IsTallied (handle e s)
unfolding handle
handle-IsTallied {s} h (offering_created e) r t =
    SameVotes-IsTallied (handle_offering_created-SameVotes s e) t
handle-IsTallied {s} h (offering_bid e) r t =
    SameVotes-IsTallied (handle_offering_bid-SameVotes s e) t
handle-IsTallied {s} h (offering_extended e) r t =
    SameVotes-IsTallied (handle_offering_extended-SameVotes s e) t
handle-IsTallied {s} h (offering_settled e) r t =
    SameVotes-IsTallied (handle_offering_settled-SameVotes s e) t
handle-IsTallied {s} h (proposal_created e) r t =
    SameVotes-IsTallied (handle_proposal_created-SameVotes s e) t
handle-IsTallied {s} h (proposal_canceled id) r t =
    SameVotes-IsTallied (handle_proposal_canceled-SameVotes s id) t
handle-IsTallied {s} h (proposal_vetoed id) r t =
    SameVotes-IsTallied (handle_proposal_vetoed-SameVotes s id) t
handle-IsTallied {s} h (proposal_queued id eta) r t =
    SameVotes-IsTallied (handle_proposal_queued-SameVotes s id eta) t
handle-IsTallied {s} h (proposal_executed id) r t =
    SameVotes-IsTallied (handle_proposal_executed-SameVotes s id) t
handle-IsTallied {s} h (vote_cast e) r t = SameVotes-IsTallied (handle_vote_cast-SameVotes s e) t
handle-IsTallied {s} h (the_word_created e) r t =
    SameVotes-IsTallied (handle_the_word_created-SameVotes s e) t
handle-IsTallied h (delegate_changed e) r t =
    SameVotes-IsTallied (handle_delegate_changed-SameVotes h e) t
handle-IsTallied h (delegate_votes_changed e) r t = handle_delegate_votes_changed-IsTallied h e r t
handle-IsTallied h (transfer e) r t = SameVotes-IsTallied (handle_transfer-SameVotes h e) t

-- Over any events, the votes that the governance entity counts stay the sum of the votes of all
-- delegates, if they are so at the start and every event that changes a delegate's votes reports
-- as the previous balance what the store has for the delegate.
pub index-IsTallied :
    (events : List Event) {s : Store}
    → IsConsistent s
    → ReportAllVotes events s
    → IsTallied s
    → IsTallied (index events s)
unfolding index
index-IsTallied [] h r t = t
index-IsTallied (e ∷ events) h (r, rest) t =
    index-IsTallied events (handle-IsConsistent h e) rest (handle-IsTallied h e r t)
