-- ===== src/Subgraph/House/Keeps.antt =====
-- The handlers of nouns-auction-house.ts keep the invariant of the store.
use theword_monorepo.Prelude.{inl, inr, Option-cases}
use theword_monorepo.Prelude.Table.{load}
use theword_monorepo.Subgraph.Entities.{Store}
use theword_monorepo.Subgraph.Helpers.{account_of}
use theword_monorepo.Subgraph.Consistent.{
  IsConsistent, account_of-keeps, log_error-IsConsistent, save_offering-IsConsistent,
  save_bid-IsConsistent,
}
use theword_monorepo.Subgraph.House.{
  OfferingCreated, handle_offering_created, OfferingBid, handle_offering_bid, OfferingExtended,
  handle_offering_extended, OfferingSettled, handle_offering_settled,
}

module _ {s : Store} (h : IsConsistent s) where
  pub handle_offering_created-IsConsistent :
      (e : OfferingCreated) → IsConsistent (handle_offering_created e s)
  handle_offering_created-IsConsistent e = elim (Option-cases (load s.thewords e.theword_id)) [
    | inl missing ↦
        unfold handle_offering_created in
        rw (missing, handle_offering_created) (log_error-IsConsistent h _ _)
    | inr (t, found) ↦
        unfold handle_offering_created in
        rw (found, handle_offering_created) (save_offering-IsConsistent h _)
  ]

  pub handle_offering_bid-IsConsistent : (e : OfferingBid) → IsConsistent (handle_offering_bid e s)
  unfolding handle_offering_bid
  handle_offering_bid-IsConsistent e =
      let (_, h') = account_of-keeps h e.sender in
      elim (Option-cases (load (account_of e.sender s).1.offerings e.theword_id)) [
        | inl missing ↦ rw (missing, handle_offering_bid) (log_error-IsConsistent h' _ _)
        | inr (o, found) ↦
            rw (found, handle_offering_bid)
              (save_bid-IsConsistent (save_offering-IsConsistent h' _) _)
      ]

  pub handle_offering_extended-IsConsistent :
      (e : OfferingExtended) → IsConsistent (handle_offering_extended e s)
  unfolding handle_offering_extended
  handle_offering_extended-IsConsistent e = elim (Option-cases (load s.offerings e.theword_id)) [
    | inl missing ↦ rw (missing, handle_offering_extended) (log_error-IsConsistent h _ _)
    | inr (o, found) ↦ rw (found, handle_offering_extended) (save_offering-IsConsistent h _)
  ]

  pub handle_offering_settled-IsConsistent :
      (e : OfferingSettled) → IsConsistent (handle_offering_settled e s)
  unfolding handle_offering_settled
  handle_offering_settled-IsConsistent e = elim (Option-cases (load s.offerings e.theword_id)) [
    | inl missing ↦ rw (missing, handle_offering_settled) (log_error-IsConsistent h _ _)
    | inr (o, found) ↦ rw (found, handle_offering_settled) (save_offering-IsConsistent h _)
  ]
