-- ===== src/Subgraph/Dao/Keeps.antt =====
-- The handlers of nouns-dao.ts keep the invariant of the store.
use theword_monorepo.Prelude.{String, inl, inr, Option-cases, Bool-cases}
use theword_monorepo.Prelude.Int.{ℤ}
use theword_monorepo.Prelude.Table.{load}
use theword_monorepo.Subgraph.Entities.{Proposal, Store}
use theword_monorepo.Subgraph.Helpers.{proposal_of, vote_of, vote_of_snd}
use theword_monorepo.Subgraph.Consistent.{
  IsConsistent, delegate_of-keeps, proposal_of-keeps, log_error-IsConsistent,
  save_proposal-IsConsistent, save_governance-IsConsistent, save_vote-IsConsistent,
}
use theword_monorepo.Subgraph.Dao.{
  ProposalCreated, VoteCast, vote_id, log_unless_delegate, log_unless_delegate_missing,
  log_unless_delegate_found, is_pending, activate, handle_proposal_created,
  handle_proposal_canceled, handle_proposal_vetoed, handle_proposal_queued,
  handle_proposal_executed, handle_vote_cast,
}

module _ {s : Store} (h : IsConsistent s) where
  log_unless_delegate-IsConsistent :
      (m id hash : String) → IsConsistent (log_unless_delegate m id hash s)
  log_unless_delegate-IsConsistent m id hash = elim (Option-cases (load s.delegates id)) [
    | inl missing ↦
        rw (log_unless_delegate_missing m id hash s missing) (log_error-IsConsistent h _ _)
    | inr (d, found) ↦ rw (log_unless_delegate_found m id hash s found) h
  ]

  activate-IsConsistent : (p : Proposal) → IsConsistent (activate p s)
  activate-IsConsistent p = elim (Bool-cases (is_pending p.status)) [
    | inl waiting ↦ rw waiting (save_proposal-IsConsistent h _)
    | inr other ↦ rw other h
  ]

module _ {s : Store} (h : IsConsistent s) where
  pub handle_proposal_created-IsConsistent :
      (e : ProposalCreated) → IsConsistent (handle_proposal_created e s)
  unfolding handle_proposal_created
  handle_proposal_created-IsConsistent e =
      let (_, h1) = proposal_of-keeps h e.id in
      let h2 = log_unless_delegate-IsConsistent h1 "ProposalCreated" e.proposer e.hash in
      let (_, h3) = delegate_of-keeps h2 e.proposer in save_proposal-IsConsistent h3 _

  pub handle_proposal_canceled-IsConsistent :
      (id : String) → IsConsistent (handle_proposal_canceled id s)
  unfolding handle_proposal_canceled
  handle_proposal_canceled-IsConsistent id = save_proposal-IsConsistent (proposal_of-keeps h id).1 _

  pub handle_proposal_vetoed-IsConsistent :
      (id : String) → IsConsistent (handle_proposal_vetoed id s)
  unfolding handle_proposal_vetoed
  handle_proposal_vetoed-IsConsistent id = save_proposal-IsConsistent (proposal_of-keeps h id).1 _

  pub handle_proposal_queued-IsConsistent :
      (id : String) (eta : ℤ) → IsConsistent (handle_proposal_queued id eta s)
  unfolding handle_proposal_queued
  handle_proposal_queued-IsConsistent id eta =
      save_governance-IsConsistent (save_proposal-IsConsistent (proposal_of-keeps h id).1 _)
        h.governance

  pub handle_proposal_executed-IsConsistent :
      (id : String) → IsConsistent (handle_proposal_executed id s)
  unfolding handle_proposal_executed
  handle_proposal_executed-IsConsistent id =
      save_governance-IsConsistent (save_proposal-IsConsistent (proposal_of-keeps h id).1 _)
        h.governance

  pub handle_vote_cast-IsConsistent : (e : VoteCast) → IsConsistent (handle_vote_cast e s)
  unfolding handle_vote_cast
  handle_vote_cast-IsConsistent e =
      let (_, h1) = proposal_of-keeps h e.proposal_id in
      let s1 = (proposal_of e.proposal_id s).1 in
      let h2 : IsConsistent (vote_of (vote_id e) s1).1 = rw (vote_of_snd (vote_id e) s1) h1 in
      let h3 = log_unless_delegate-IsConsistent h2 "VoteCast" e.voter e.hash in
      let (_, h4) = delegate_of-keeps h3 e.voter in
      activate-IsConsistent (save_vote-IsConsistent h4 _) _
