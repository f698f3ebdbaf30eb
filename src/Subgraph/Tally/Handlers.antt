-- ===== src/Subgraph/Tally/Handlers.antt =====
-- The handlers of proposals, of holders and of delegates move no votes.
use theword_monorepo.Prelude.{◌≡◌, refl, sym, ap, ◌∙◌, String, some, arith, inl, inr, Option-cases}
use theword_monorepo.Prelude.Int.{ℤ}
use theword_monorepo.Prelude.Table.{load}
use theword_monorepo.Subgraph.Entities.{Delegate, Store}
use theword_monorepo.Subgraph.Helpers.{
  account_of, delegate_of, proposal_of, vote_of, vote_of_snd, save_account, save_delegate,
}
use theword_monorepo.Subgraph.Consistent.{IsConsistent, account_of-keeps, delegate_of-keeps}
use theword_monorepo.Subgraph.Dao.{
  ProposalCreated, VoteCast, vote_id, log_unless_delegate, log_unless_delegate_missing,
  log_unless_delegate_found, handle_proposal_created, handle_proposal_canceled,
  handle_proposal_vetoed, handle_proposal_queued, handle_proposal_executed, handle_vote_cast,
}
use theword_monorepo.Subgraph.Token.{
  DelegateChanged, handle_delegate_changed, remove_delegator, add_delegator,
}
use theword_monorepo.Subgraph.Tally.{
  votes_of, stored_votes, SameVotes, SameVotes-trans, SameVotes-of_eq,
}
use theword_monorepo.Subgraph.Tally.Parts.{
  SameVotes-refl, save_delegate-SameVotes, delegate_of-SameVotes, delegate_of_votes,
  account_of-SameVotes, proposal_of-SameVotes,
}

log_unless_delegate-SameVotes :
    (s : Store) (m id hash : String) → SameVotes s (log_unless_delegate m id hash s)
log_unless_delegate-SameVotes s m id hash = elim (Option-cases (load s.delegates id)) [
  | inl missing ↦ rw (log_unless_delegate_missing m id hash s missing) (SameVotes-of_eq refl refl)
  | inr (d, found) ↦ rw (log_unless_delegate_found m id hash s found) (SameVotes-refl s)
]

module _ (s : Store) where
  pub handle_proposal_created-SameVotes :
      (e : ProposalCreated) → SameVotes s (handle_proposal_created e s)
  unfolding handle_proposal_created
  handle_proposal_created-SameVotes e =
      let s1 = (proposal_of e.id s).1 in
      let s2 = log_unless_delegate "ProposalCreated" e.proposer e.hash s1 in
      SameVotes-trans (proposal_of-SameVotes e.id s) (
        SameVotes-trans (log_unless_delegate-SameVotes s1 "ProposalCreated" e.proposer e.hash)
          (SameVotes-trans (delegate_of-SameVotes e.proposer s2) (SameVotes-of_eq refl refl)))

  pub handle_proposal_canceled-SameVotes :
      (id : String) → SameVotes s (handle_proposal_canceled id s)
  unfolding handle_proposal_canceled
  handle_proposal_canceled-SameVotes id =
      SameVotes-trans (proposal_of-SameVotes id s) (SameVotes-of_eq refl refl)

  pub handle_proposal_vetoed-SameVotes : (id : String) → SameVotes s (handle_proposal_vetoed id s)
  unfolding handle_proposal_vetoed
  handle_proposal_vetoed-SameVotes id =
      SameVotes-trans (proposal_of-SameVotes id s) (SameVotes-of_eq refl refl)

  -- The governance entity that is saved is the one of `s`, with another count.
  pub handle_proposal_queued-SameVotes :
      (id : String) (eta : ℤ) → SameVotes s (handle_proposal_queued id eta s)
  unfolding handle_proposal_queued
  handle_proposal_queued-SameVotes id eta =
      let p = proposal_of-SameVotes id s in
      record { tally = p.tally; counted = refl; stored = p.stored }

  pub handle_proposal_executed-SameVotes :
      (id : String) → SameVotes s (handle_proposal_executed id s)
  unfolding handle_proposal_executed
  handle_proposal_executed-SameVotes id =
      let p = proposal_of-SameVotes id s in
      record { tally = p.tally; counted = refl; stored = p.stored }

  pub handle_vote_cast-SameVotes : (e : VoteCast) → SameVotes s (handle_vote_cast e s)
  unfolding handle_vote_cast
  handle_vote_cast-SameVotes e =
      let s1 = (proposal_of e.proposal_id s).1 in
      let s2 = (vote_of (vote_id e) s1).1 in
      let s3 = log_unless_delegate "VoteCast" e.voter e.hash s2 in
      let v : SameVotes s1 s2 = rw vote_of_snd (SameVotes-refl s1) in
      SameVotes-trans (proposal_of-SameVotes e.proposal_id s) (
        SameVotes-trans v (
          SameVotes-trans (log_unless_delegate-SameVotes s2 "VoteCast" e.voter e.hash) (
            SameVotes-trans (delegate_of-SameVotes e.voter s3)
              (SameVotes-of_eq (ground arith) (ground arith)))))

-- A delegate that was read and is saved with the votes that it had.
pub update_delegate-SameVotes :
    (s : Store) (id : String) (d : Delegate)
    → d.id ≡ id
    → votes_of d ≡ stored_votes s id
    → SameVotes s (save_delegate d s)
update_delegate-SameVotes s id d same votes =
    save_delegate-SameVotes s d (ap (stored_votes s) same ∙ sym votes)

pub read_delegate_votes :
    (id : String) (s : Store) → votes_of (delegate_of id s).0 ≡ stored_votes (delegate_of id s).1 id
read_delegate_votes id s = sym ((delegate_of-SameVotes id s).stored id ∙ delegate_of_votes id s)

pub handle_delegate_changed-SameVotes :
    {s : Store} → IsConsistent s → (e : DelegateChanged) → SameVotes s (handle_delegate_changed e s)
unfolding handle_delegate_changed
handle_delegate_changed-SameVotes {s} h e =
    let (holder, s1) = account_of e.delegator s in
    let (previous, s2) = delegate_of e.from_delegate s1 in
    let (next, s3) = delegate_of e.to_delegate s2 in
    let s4 = save_account (record holder { delegate = some next.id }) s3 in
    let (_, h1) = account_of-keeps h e.delegator in
    let (p, h2) = delegate_of-keeps h1 e.from_delegate in
    let (n, _) = delegate_of-keeps h2 e.to_delegate in
    let to3 = delegate_of-SameVotes e.to_delegate s2 in
    let read_previous = read_delegate_votes e.from_delegate s1 ∙ sym (to3.stored e.from_delegate) in
    let removed =
      update_delegate-SameVotes s4 e.from_delegate (remove_delegator holder.theword previous) p.id
        read_previous in
    let s5 = save_delegate (remove_delegator holder.theword previous) s4 in
    let read_next = read_delegate_votes e.to_delegate s2 ∙ sym (removed.stored e.to_delegate) in
    let added =
      update_delegate-SameVotes s5 e.to_delegate (add_delegator holder.theword next) n.id
        read_next in
    SameVotes-trans (account_of-SameVotes e.delegator s) (
      SameVotes-trans (delegate_of-SameVotes e.from_delegate s1) (
        SameVotes-trans to3
          (SameVotes-trans {t = s4} (SameVotes-of_eq refl refl) (SameVotes-trans removed added))))
