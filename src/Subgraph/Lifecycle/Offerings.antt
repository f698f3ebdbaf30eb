-- ===== src/Subgraph/Lifecycle/Offerings.antt =====
-- What an offering keeps over the events that follow its creation.
use theword_monorepo.Prelude.{
  ◌≡◌, refl, ◌∙◌, ◌≢◌, String, true, false, none, some, List, [], ◌∷◌, arith, str_eq, eq_iff, inl,
  inr, Option-cases, Bool-cases, All,
}
use mathlib.Core.Path.{subst}
use theword_monorepo.Prelude.Int.{pos}
use theword_monorepo.Prelude.Table.{Table, load, save, load-save}
use theword_monorepo.Subgraph.Entities.{Offering, Store}
use theword_monorepo.Subgraph.Helpers.{account_of, proposal_of, vote_of}
use theword_monorepo.Subgraph.Consistent.{IsConsistent, account_of-keeps}
use theword_monorepo.Subgraph.House.{
  OfferingCreated, handle_offering_created, OfferingBid, handle_offering_bid, OfferingExtended,
  handle_offering_extended, OfferingSettled, handle_offering_settled,
}
use theword_monorepo.Subgraph.Dao.{
  ProposalCreated, VoteCast, vote_id, is_pending, log_unless_delegate, handle_proposal_created,
  handle_proposal_canceled, handle_proposal_vetoed, handle_proposal_queued,
  handle_proposal_executed, handle_vote_cast,
}
use theword_monorepo.Subgraph.Events.{
  Event, offering_created, offering_bid, offering_extended, offering_settled, proposal_created,
  proposal_canceled, proposal_vetoed, proposal_queued, proposal_executed, vote_cast,
  the_word_created, delegate_changed, delegate_votes_changed, transfer, handle, index,
}
use theword_monorepo.Subgraph.Events.Keeps.{handle-IsConsistent}
use theword_monorepo.Subgraph.Lifecycle.Frame.{
  SameRecords-trans, account_of-SameRecords, delegate_of-SameRecords, proposal_of-SameRecords,
  vote_of-SameRecords, log_unless_delegate-SameRecords, handle_transfer-SameRecords,
  handle_the_word_created-SameRecords, handle_delegate_changed-SameRecords,
  handle_delegate_votes_changed-SameRecords,
}

-- The token and the start stay, and what is settled stays settled.
pub record Continues (o o' : Offering) : Type 0 where
  pub theword : o'.theword ≡ o.theword
  pub start_time : o'.start_time ≡ o.start_time
  pub settled : o.settled ≡ true → o'.settled ≡ true

abbrev pub HasContinued : Table Offering → String → Offering → Type 0
HasContinued t id o = (o' : Offering) × (load t id ≡ some o') × Continues o o'

Continues-refl : (o : Offering) → Continues o o
Continues-refl o = record { theword = refl; start_time = refl; settled = λ p. p }

Continues-trans : {o p q : Offering} → Continues o p → Continues p q → Continues o q
Continues-trans a b = record {
  theword = b.theword ∙ a.theword;
  start_time = b.start_time ∙ a.start_time;
  settled = λ h. b.settled (a.settled h);
}

unchanged :
    {t t' : Table Offering} (id : String) {o : Offering}
    → t' ≡ t
    → load t id ≡ some o
    → HasContinued t' id o
unchanged id {o = o} same found = (o, rw same found, Continues-refl o)

replaced :
    (t : Table Offering) {k : String} (id : String) {o x : Offering} (y : Offering)
    → load t k ≡ some x
    → y.id ≡ k
    → Continues x y
    → load t id ≡ some o
    → HasContinued (save t y.id y) id o
replaced t {k} id {o} {x} y at key c found = elim (Bool-cases (str_eq k id)) [
  | inl same ↦
      let o_eq : x ≡ o = ground (arith, eq_iff k id) in
      (y, rw (load-save, key, same), subst (λ z. Continues z y) o_eq c)
  | inr other ↦ (o, rw (load-save, key, other) found, Continues-refl o)
]

-- The event does not create the offering `id` anew.
abbrev pub CreatesOther : String → Event → Type 0
CreatesOther id (offering_created e) = e.theword_id ≢ id
CreatesOther id _ = Unit

module _ (s : Store) (h : IsConsistent s) (id : String) (o : Offering)
    (found : load s.offerings id ≡ some o) where
  handle_offering_created-continues :
      (e : OfferingCreated)
      → e.theword_id ≢ id
      → HasContinued (handle_offering_created e s).offerings id o
  unfolding handle_offering_created
  handle_offering_created-continues e other = elim (Option-cases (load s.thewords e.theword_id)) [
    | inl missing ↦ rw (missing, handle_offering_created) (unchanged id refl found)
    | inr (t, there) ↦
        rw (there, handle_offering_created)
          (
            o,
            ground (
              arith,
              load-save s.offerings e.theword_id id (record {
                id = e.theword_id;
                theword = t.id;
                amount = pos 0;
                start_time = e.start_time;
                end_time = e.end_time;
                bidder = none;
                settled = false;
              }),
              eq_iff e.theword_id id,
            ),
            Continues-refl o,
          )
  ]

  handle_offering_bid-continues :
      (e : OfferingBid) → HasContinued (handle_offering_bid e s).offerings id o
  unfolding handle_offering_bid
  handle_offering_bid-continues e =
      let (bidder, s') = account_of e.sender s in
      let same = (account_of-SameRecords e.sender s).offerings in
      elim (Option-cases (load s'.offerings e.theword_id)) [
        | inl missing ↦ rw (missing, handle_offering_bid) (unchanged id same found)
        | inr (x, there) ↦
            rw (there, handle_offering_bid)
              (replaced s'.offerings id (record x { amount = e.value; bidder = some bidder.id })
                there ((account_of-keeps h e.sender).1.offerings e.theword_id x there)
                (record { theword = refl; start_time = refl; settled = λ p. p }) (rw same found))
      ]

  handle_offering_extended-continues :
      (e : OfferingExtended) → HasContinued (handle_offering_extended e s).offerings id o
  unfolding handle_offering_extended
  handle_offering_extended-continues e = elim (Option-cases (load s.offerings e.theword_id)) [
    | inl missing ↦ rw (missing, handle_offering_extended) (unchanged id refl found)
    | inr (x, there) ↦
        rw (there, handle_offering_extended)
          (replaced s.offerings id (record x { end_time = e.end_time }) there
            (h.offerings e.theword_id x there)
            (record { theword = refl; start_time = refl; settled = λ p. p }) found)
  ]

  handle_offering_settled-continues :
      (e : OfferingSettled) → HasContinued (handle_offering_settled e s).offerings id o
  unfolding handle_offering_settled
  handle_offering_settled-continues e = elim (Option-cases (load s.offerings e.theword_id)) [
    | inl missing ↦ rw (missing, handle_offering_settled) (unchanged id refl found)
    | inr (x, there) ↦
        rw (there, handle_offering_settled)
          (replaced s.offerings id (record x { settled = true }) there
            (h.offerings e.theword_id x there)
            (record { theword = refl; start_time = refl; settled = λ p. refl }) found)
  ]

module _ (s : Store) where
  handle_proposal_created_offerings :
      (e : ProposalCreated) → (handle_proposal_created e s).offerings ≡ s.offerings
  unfolding handle_proposal_created
  handle_proposal_created_offerings e =
      let s1 = (proposal_of e.id s).1 in
      let s2 = log_unless_delegate "ProposalCreated" e.proposer e.hash s1 in
      (SameRecords-trans (proposal_of-SameRecords e.id s) (
        SameRecords-trans (log_unless_delegate-SameRecords e.proposer s1 "ProposalCreated" e.hash)
          (delegate_of-SameRecords e.proposer s2))).offerings

  handle_vote_cast_offerings : (e : VoteCast) → (handle_vote_cast e s).offerings ≡ s.offerings
  unfolding handle_vote_cast
  handle_vote_cast_offerings e =
      let (p, s1) = proposal_of e.proposal_id s in
      let s2 = (vote_of (vote_id e) s1).1 in
      let s3 = log_unless_delegate "VoteCast" e.voter e.hash s2 in
      let r = SameRecords-trans (proposal_of-SameRecords e.proposal_id s) (
        SameRecords-trans (vote_of-SameRecords (vote_id e) s1) (
          SameRecords-trans (log_unless_delegate-SameRecords e.voter s2 "VoteCast" e.hash)
            (delegate_of-SameRecords e.voter s3))) in
      elim (Bool-cases (is_pending p.status)) [
        | inl waiting ↦ rw waiting r.offerings
        | inr other ↦ rw other r.offerings
      ]

handle-continues :
    (e : Event) (s : Store)
    → IsConsistent s
    → (id : String) (o : Offering) → CreatesOther id e
    → load s.offerings id ≡ some o
    → HasContinued (handle e s).offerings id o
unfolding handle handle_proposal_canceled handle_proposal_vetoed handle_proposal_queued
    handle_proposal_executed
handle-continues (offering_created e) s h id o n found =
    handle_offering_created-continues s h id o found e n
handle-continues (offering_bid e) s h id o n found = handle_offering_bid-continues s h id o found e
handle-continues (offering_extended e) s h id o n found =
    handle_offering_extended-continues s h id o found e
handle-continues (offering_settled e) s h id o n found =
    handle_offering_settled-continues s h id o found e
handle-continues (proposal_created e) s h id o n found =
    unchanged id (handle_proposal_created_offerings s e) found
handle-continues (proposal_canceled k) s h id o n found =
    unchanged id (proposal_of-SameRecords k s).offerings found
handle-continues (proposal_vetoed k) s h id o n found =
    unchanged id (proposal_of-SameRecords k s).offerings found
handle-continues (proposal_queued k eta) s h id o n found =
    unchanged id (proposal_of-SameRecords k s).offerings found
handle-continues (proposal_executed k) s h id o n found =
    unchanged id (proposal_of-SameRecords k s).offerings found
handle-continues (vote_cast e) s h id o n found =
    unchanged id (handle_vote_cast_offerings s e) found
handle-continues (the_word_created e) s h id o n found =
    unchanged id (handle_the_word_created-SameRecords s e).offerings found
handle-continues (delegate_changed e) s h id o n found =
    unchanged id (handle_delegate_changed-SameRecords s e).offerings found
handle-continues (delegate_votes_changed e) s h id o n found =
    unchanged id (handle_delegate_votes_changed-SameRecords s e).offerings found
handle-continues (transfer e) s h id o n found =
    unchanged id (handle_transfer-SameRecords s e).offerings found

-- An offering that the index has stays in it over any events that do not create it anew: its
-- token and its start time stay the same, and once settled it stays settled.
pub index-continues :
    (events : List Event) (s : Store)
    → IsConsistent s
    → (id : String) (o : Offering) → All (CreatesOther id) events
    → load s.offerings id ≡ some o
    → HasContinued (index events s).offerings id o
unfolding index
index-continues [] s h id o other found = (o, found, Continues-refl o)
index-continues (e ∷ events) s h id o (n, other) found =
    let (p, there, c) = handle-continues e s h id o n found in
    let (q, last, d) =
      index-continues events (handle e s) (handle-IsConsistent h e) id p other there in
    (q, last, Continues-trans c d)
