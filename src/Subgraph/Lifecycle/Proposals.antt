-- ===== src/Subgraph/Lifecycle/Proposals.antt =====
-- The status of a proposal as a machine that reads the events.
use theword_monorepo.Prelude.{
  ◌≡◌, refl, ap, ◌∙◌, String, true, false, Option, none, some, List, [], ◌∷◌, arith, str_eq, eq_iff,
  if◌then◌else◌, inl, inr, Option-cases, Bool-cases,
}
use theword_monorepo.Prelude.Int.{ltb_ℤ}
use theword_monorepo.Prelude.Table.{Table, load, save, load-save}
use theword_monorepo.Subgraph.Entities.{
  Status, pending, cancelled, vetoed, executed, queued, active, Proposal, Store,
}
use theword_monorepo.Subgraph.Helpers.{proposal_of, proposal_of_found, proposal_of_missing, vote_of}
use theword_monorepo.Subgraph.Consistent.{IsConsistent, proposal_of-keeps}
use theword_monorepo.Subgraph.Dao.{
  ProposalCreated, VoteCast, vote_id, is_pending, log_unless_delegate, handle_proposal_created,
  handle_proposal_canceled, handle_proposal_vetoed, handle_proposal_queued,
  handle_proposal_executed, handle_vote_cast,
}
use theword_monorepo.Subgraph.House.{
  handle_offering_created, handle_offering_bid, handle_offering_extended, handle_offering_settled,
}
use theword_monorepo.Subgraph.Events.{
  Event, offering_created, offering_bid, offering_extended, offering_settled, proposal_created,
  proposal_canceled, proposal_vetoed, proposal_queued, proposal_executed, vote_cast,
  the_word_created, delegate_changed, delegate_votes_changed, transfer, handle, index,
}
use theword_monorepo.Subgraph.Events.Keeps.{handle-IsConsistent}
use theword_monorepo.Subgraph.Lifecycle.Frame.{
  SameRecords, SameRecords-trans, account_of-SameRecords, delegate_of-SameRecords,
  proposal_of-SameRecords, vote_of-SameRecords, log_unless_delegate-SameRecords,
  handle_transfer-SameRecords, handle_the_word_created-SameRecords,
  handle_delegate_changed-SameRecords, handle_delegate_votes_changed-SameRecords,
}

abbrev pub status_in : Option Proposal → Option Status
status_in none = none
status_in (some p) = p.status

-- The indexed status of a proposal, if it has one.
abbrev pub status : Store → String → Option Status
status s id = status_in (load s.proposals id)

-- A vote activates a pending proposal.
abbrev pub voted : Option Status → Option Status
voted none = none
voted (some pending) = some active
voted (some cancelled) = some cancelled
voted (some vetoed) = some vetoed
voted (some executed) = some executed
voted (some queued) = some queued
voted (some active) = some active

voted_pending : (o : Option Status) → is_pending o ≡ true → voted o ≡ some active
voted_pending none h = ground arith
voted_pending (some pending) h = refl
voted_pending (some cancelled) h = ground arith
voted_pending (some vetoed) h = ground arith
voted_pending (some executed) h = ground arith
voted_pending (some queued) h = ground arith
voted_pending (some active) h = refl

voted_other : (o : Option Status) → is_pending o ≡ false → voted o ≡ o
voted_other none h = refl
voted_other (some pending) h = ground arith
voted_other (some cancelled) h = refl
voted_other (some vetoed) h = refl
voted_other (some executed) h = refl
voted_other (some queued) h = refl
voted_other (some active) h = refl

-- What an event makes of the status of the proposal `id`.
abbrev pub next_status : Event → String → Option Status → Option Status
next_status (proposal_created e) id old =
    if str_eq e.id id
    then some (if ltb_ℤ e.block_number e.start_block then pending else active)
    else old
next_status (proposal_canceled k) id old = if str_eq k id then some cancelled else old
next_status (proposal_vetoed k) id old = if str_eq k id then some vetoed else old
next_status (proposal_queued k eta) id old = if str_eq k id then some queued else old
next_status (proposal_executed k) id old = if str_eq k id then some executed else old
next_status (vote_cast e) id old = if str_eq e.proposal_id id then voted old else old
next_status _ id old = old

abbrev pub run_status : List Event → String → Option Status → Option Status
run_status [] id old = old
run_status (e ∷ es) id old = run_status es id (next_status e id old)

saved_status :
    {t t' : Table Proposal} (p : Proposal) {k : String} (id : String)
    → t' ≡ t
    → p.id ≡ k
    → status_in (load (save t' p.id p) id)
      ≡ (if str_eq k id then p.status else status_in (load t id))
saved_status {t} p {k} id same key = rw (same, key) (ground (arith, load-save t k id p))

proposal_of_status : (k : String) (s : Store) → (proposal_of k s).0.status ≡ status s k
proposal_of_status k s = elim (Option-cases (load s.proposals k)) [
  | inl missing ↦ rw (proposal_of_missing k s missing) (ground arith)
  | inr (p, found) ↦ rw (proposal_of_found k s p found) (ground arith)
]

module _ (s : Store) (h : IsConsistent s) (id : String) where
  same_status : (s' : Store) → SameRecords s s' → status s' id ≡ status s id
  same_status s' r = ap (λ t. status_in (load t id)) r.proposals

  handle_proposal_created_status :
      (e : ProposalCreated)
      → status (handle_proposal_created e s) id ≡ next_status (proposal_created e) id (status s id)
  unfolding handle_proposal_created
  handle_proposal_created_status e =
      let s1 = (proposal_of e.id s).1 in
      let s2 = log_unless_delegate "ProposalCreated" e.proposer e.hash s1 in
      let r = SameRecords-trans (proposal_of-SameRecords e.id s) (
        SameRecords-trans (log_unless_delegate-SameRecords e.proposer s1 "ProposalCreated" e.hash)
          (delegate_of-SameRecords e.proposer s2)) in
      saved_status _ id r.proposals (proposal_of-keeps h e.id).0

  handle_vote_cast_status :
      (e : VoteCast) → status (handle_vote_cast e s) id ≡ next_status (vote_cast e) id (status s id)
  unfolding handle_vote_cast
  handle_vote_cast_status e =
      let (p, s1) = proposal_of e.proposal_id s in
      let s2 = (vote_of (vote_id e) s1).1 in
      let s3 = log_unless_delegate "VoteCast" e.voter e.hash s2 in
      let r = SameRecords-trans (proposal_of-SameRecords e.proposal_id s) (
        SameRecords-trans (vote_of-SameRecords (vote_id e) s1) (
          SameRecords-trans (log_unless_delegate-SameRecords e.voter s2 "VoteCast" e.hash)
            (delegate_of-SameRecords e.voter s3))) in
      let read = proposal_of_status e.proposal_id s in
      let saved =
        saved_status (record p { status = some active }) id r.proposals
          (proposal_of-keeps h e.proposal_id).0 in
      elim (Bool-cases (is_pending p.status)) [
        | inl waiting ↦
            let v = voted_pending p.status waiting in
            rw waiting (saved ∙ ground (arith, eq_iff e.proposal_id id))
        | inr other ↦
            let v = voted_other p.status other in
            rw other (
              ap (λ t. status_in (load t id)) r.proposals ∙ ground (arith, eq_iff e.proposal_id id))
      ]

handle_status :
    (e : Event) (s : Store)
    → IsConsistent s
    → (id : String) → status (handle e s) id ≡ next_status e id (status s id)
unfolding handle handle_proposal_canceled handle_proposal_vetoed handle_proposal_queued
    handle_proposal_executed handle_offering_created handle_offering_bid handle_offering_extended
    handle_offering_settled
handle_status (proposal_created e) s h id = handle_proposal_created_status s h id e
handle_status (proposal_canceled k) s h id =
    saved_status _ id (proposal_of-SameRecords k s).proposals (proposal_of-keeps h k).0
handle_status (proposal_vetoed k) s h id =
    saved_status _ id (proposal_of-SameRecords k s).proposals (proposal_of-keeps h k).0
handle_status (proposal_queued k eta) s h id =
    saved_status (record (proposal_of k s).0 { status = some queued; execution_eta = some eta }) id
      (proposal_of-SameRecords k s).proposals (proposal_of-keeps h k).0
handle_status (proposal_executed k) s h id =
    saved_status (record (proposal_of k s).0 { status = some executed; execution_eta = none }) id
      (proposal_of-SameRecords k s).proposals (proposal_of-keeps h k).0
handle_status (vote_cast e) s h id = handle_vote_cast_status s h id e
handle_status (the_word_created e) s h id =
    same_status s h id _ (handle_the_word_created-SameRecords s e)
handle_status (delegate_changed e) s h id =
    same_status s h id _ (handle_delegate_changed-SameRecords s e)
handle_status (delegate_votes_changed e) s h id =
    same_status s h id _ (handle_delegate_votes_changed-SameRecords s e)
handle_status (transfer e) s h id = same_status s h id _ (handle_transfer-SameRecords s e)
handle_status (offering_created e) s h id = ground arith
handle_status (offering_bid e) s h id =
    ground (arith, (account_of-SameRecords e.sender s).proposals)
handle_status (offering_extended e) s h id = ground arith
handle_status (offering_settled e) s h id = ground arith

-- The status that the index gives a proposal is the one that the machine `next_status` computes
-- from the events about that proposal, whatever the other events are and do to the store.
pub index_status :
    (events : List Event) (s : Store)
    → IsConsistent s
    → (id : String) → status (index events s) id ≡ run_status events id (status s id)
unfolding index
index_status [] s h id = refl
index_status (e ∷ events) s h id =
    index_status events (handle e s) (handle-IsConsistent h e) id
    ∙ ap (run_status events id) (handle_status e s h id)
