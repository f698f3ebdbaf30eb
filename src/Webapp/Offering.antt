-- ===== src/Webapp/Offering.antt =====
-- offering.ts: the current offering and its bids. A `BigNumberish` field, which the code turns into
-- the JSON of a `BigNumber`, is its number.
pub mod Bids
pub mod Own
use theword_monorepo.Prelude.{
  ℕ, String, Bool, true, false, Option, none, some, List, [], ◌∷◌, map, arith, ltb, ◌==◌,
  if◌then◌else◌, includes,
}

pub record Offering : Type 0 where
  pub amount : ℕ
  pub bidder : String
  pub start_time : ℕ
  pub end_time : ℕ
  pub theword_id : ℕ
  pub settled : Bool

pub record BidEvent : Type 0 where
  pub theword_id : ℕ
  pub sender : String
  pub value : ℕ
  pub extended : Bool
  pub transaction_hash : String
  pub timestamp : ℕ

pub record OfferingCreateEvent : Type 0 where
  pub theword_id : ℕ
  pub start_time : ℕ
  pub end_time : ℕ
  pub settled : Bool

pub record OfferingSettledEvent : Type 0 where
  pub theword_id : ℕ
  pub winner : String
  pub amount : ℕ

pub record OfferingExtendedEvent : Type 0 where
  pub theword_id : ℕ
  pub end_time : ℕ

pub record OfferingState : Type 0 where
  pub active_offering : Option Offering
  pub bids : List BidEvent

abbrev pub initial_state : OfferingState
initial_state = record { active_offering = none; bids = [] }

abbrev pub redux_safe_new_offering : OfferingCreateEvent → Offering
redux_safe_new_offering e = record {
  amount = 0;
  bidder = "";
  start_time = e.start_time;
  end_time = e.end_time;
  theword_id = e.theword_id;
  settled = false;
}

abbrev pub redux_safe_offering : Offering → Offering
redux_safe_offering o = record {
  amount = o.amount;
  bidder = o.bidder;
  start_time = o.start_time;
  end_time = o.end_time;
  theword_id = o.theword_id;
  settled = o.settled;
}

abbrev pub redux_safe_bid : BidEvent → BidEvent
redux_safe_bid b = record {
  theword_id = b.theword_id;
  sender = b.sender;
  value = b.value;
  extended = b.extended;
  transaction_hash = b.transaction_hash;
  timestamp = b.timestamp;
}

-- `reduce` from the first bid, over the others.
unfoldable pub max_bid : BidEvent → List BidEvent → BidEvent
max_bid prev [] = prev
max_bid prev (current ∷ bids) =
    max_bid (if ltb current.value prev.value then prev else current) bids

unfoldable pub contains_bid : List BidEvent → BidEvent → Bool
contains_bid bids e = includes (map (λ b. b.transaction_hash) bids) e.transaction_hash

unfoldable pub set_active_offering : OfferingCreateEvent → OfferingState → OfferingState
set_active_offering e s = record { active_offering = some (redux_safe_new_offering e); bids = [] }

unfoldable pub set_full_offering : Offering → OfferingState → OfferingState
set_full_offering o s = record s { active_offering = some (redux_safe_offering o) }

unfoldable pub append_bid : BidEvent → OfferingState → OfferingState
append_bid e s = elim s.active_offering [
  | none ↦ s
  | some o ↦
      let winner = max_bid (redux_safe_bid e) s.bids in
      if o.theword_id == e.theword_id
      then (if contains_bid s.bids e then s else record {
        active_offering = some (record o { amount = winner.value; bidder = winner.sender });
        bids = redux_safe_bid e ∷ s.bids;
      })
      else s
]

unfoldable pub set_offering_settled : OfferingSettledEvent → OfferingState → OfferingState
set_offering_settled e s = elim s.active_offering [
  | none ↦ s
  | some o ↦
      if o.theword_id == e.theword_id
      then record s {
        active_offering = some (record o { settled = true; bidder = e.winner; amount = e.amount });
      }
      else s
]

unfoldable pub set_offering_extended : OfferingExtendedEvent → OfferingState → OfferingState
set_offering_extended e s = elim s.active_offering [
  | none ↦ s
  | some o ↦
      if o.theword_id == e.theword_id
      then record s { active_offering = some (record o { end_time = e.end_time }) }
      else s
]

pub data Action : Type 0 where
  set_active : OfferingCreateEvent → Action
  set_full : Offering → Action
  append : BidEvent → Action
  settle : OfferingSettledEvent → Action
  extend : OfferingExtendedEvent → Action

unfoldable pub reduce : Action → OfferingState → OfferingState
reduce (set_active e) s = set_active_offering e s
reduce (set_full o) s = set_full_offering o s
reduce (append e) s = append_bid e s
reduce (settle e) s = set_offering_settled e s
reduce (extend e) s = set_offering_extended e s

unfoldable pub run : List Action → OfferingState → OfferingState
run [] s = s
run (a ∷ actions) s = run actions (reduce a s)
