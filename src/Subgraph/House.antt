-- ===== src/Subgraph/House.antt =====
-- nouns-auction-house.ts: offerings and their bids. Addresses, hashes and token ids stand in the
-- events as the texts that `toHex` and `toString` give.
pub mod Keeps
use theword_monorepo.Prelude.{String, none, some, [], ◌∷◌, true, false}
use theword_monorepo.Prelude.Int.{ℤ, pos}
use theword_monorepo.Prelude.Table.{load, save}
use theword_monorepo.Subgraph.Entities.{Offering, Bid, Store, log_error}
use theword_monorepo.Subgraph.Helpers.{account_of}

abbrev pub save_offering : Offering → Store → Store
save_offering o s = record s { offerings = save s.offerings o.id o }

abbrev pub save_bid : Bid → Store → Store
save_bid b s = record s { bids = save s.bids b.id b }

pub record OfferingCreated : Type 0 where
  pub theword_id : String
  pub start_time : ℤ
  pub end_time : ℤ
  pub hash : String

unfoldable pub handle_offering_created : OfferingCreated → Store → Store
handle_offering_created e s = elim (load s.thewords e.theword_id) [
  | none ↦ log_error "handleOfferingCreated" (e.theword_id ∷ e.hash ∷ []) s
  | some theword ↦
      save_offering
        (record {
          id = e.theword_id;
          theword = theword.id;
          amount = pos 0;
          start_time = e.start_time;
          end_time = e.end_time;
          bidder = none;
          settled = false;
        })
        s
]

pub record OfferingBid : Type 0 where
  pub theword_id : String
  pub sender : String
  pub value : ℤ
  pub hash : String
  pub index : ℤ
  pub block_number : ℤ
  pub block_timestamp : ℤ

abbrev pub bid_of : OfferingBid → String → Offering → Bid
bid_of e bidder offering = record {
  id = e.hash;
  bidder = bidder;
  amount = offering.amount;
  theword = offering.theword;
  tx_index = e.index;
  block_number = e.block_number;
  block_timestamp = e.block_timestamp;
  offering = offering.id;
}

unfoldable pub handle_offering_bid : OfferingBid → Store → Store
handle_offering_bid e s =
    let (bidder, s') = account_of e.sender s in
    elim (load s'.offerings e.theword_id) [
      | none ↦ log_error "handleOfferingBid" (e.theword_id ∷ e.hash ∷ []) s'
      | some found ↦
          let offering : Offering = record found { amount = e.value; bidder = some bidder.id } in
          save_bid (bid_of e bidder.id offering) (save_offering offering s')
    ]

pub record OfferingExtended : Type 0 where
  pub theword_id : String
  pub end_time : ℤ
  pub hash : String

unfoldable pub handle_offering_extended : OfferingExtended → Store → Store
handle_offering_extended e s = elim (load s.offerings e.theword_id) [
  | none ↦ log_error "handleOfferingExtended" (e.theword_id ∷ e.hash ∷ []) s
  | some offering ↦ save_offering (record offering { end_time = e.end_time }) s
]

pub record OfferingSettled : Type 0 where
  pub theword_id : String
  pub hash : String

unfoldable pub handle_offering_settled : OfferingSettled → Store → Store
handle_offering_settled e s = elim (load s.offerings e.theword_id) [
  | none ↦ log_error "handleOfferingSettled" (e.theword_id ∷ e.hash ∷ []) s
  | some offering ↦ save_offering (record offering { settled = true }) s
]
