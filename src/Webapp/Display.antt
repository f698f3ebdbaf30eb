-- ===== src/Webapp/Display.antt =====
-- state/slices/pastOfferings.ts, utils/thewordderTheWord.ts and wrappers/onDisplayOffering.ts: the
-- past offerings, and the offering and the bids that are shown.
pub mod Shown
pub mod Sorted
use theword_monorepo.Prelude.{
  ℕ, ◌+◌, ◌%◌, String, Bool, true, false, ◌||◌, Option, none, some, List, [], ◌∷◌, map, ltb, leb,
  ◌==◌, if◌then◌else◌,
}
use theword_monorepo.Prelude.Int.{ℤ, pos, negsuc, pos_part, neg_part}
use theword_monorepo.Webapp.OnDisplay.{
  JsNumber, whole, fraction, nan, infinite, minus_infinite, next_ℤ,
}
use theword_monorepo.Webapp.Offering.{Offering, BidEvent, OfferingState}

-- What the subgraph answers: an offering, and its bids.
pub record BidData : Type 0 where
  pub id : String
  pub bidder : String
  pub amount : ℕ
  pub block_timestamp : ℕ

pub record OfferingData : Type 0 where
  pub id : ℕ
  pub amount : ℕ
  pub bidder : Option String
  pub start_time : ℕ
  pub end_time : ℕ
  pub bids : List BidData

abbrev bid_event : ℕ → BidData → BidEvent
bid_event id b = record {
  theword_id = id;
  sender = b.bidder;
  value = b.amount;
  extended = false;
  transaction_hash = b.id;
  timestamp = b.block_timestamp;
}

abbrev pub bidder_or_empty : Option String → String
bidder_or_empty none = ""
bidder_or_empty (some bidder) = bidder

abbrev pub past_offering : OfferingData → OfferingState
past_offering o = record {
  active_offering = some (record {
    amount = o.amount;
    bidder = bidder_or_empty o.bidder;
    start_time = o.start_time;
    end_time = o.end_time;
    theword_id = o.id;
    settled = false;
  });
  bids = map (bid_event o.id) o.bids;
}

abbrev pub redux_safe_past_offerings : List OfferingData → List OfferingState
redux_safe_past_offerings offerings = map past_offering offerings

abbrev pub is_thewordder_theword : ℕ → Bool
is_thewordder_theword id = (id % 10 == 0) || (id == 0)

-- `Number.MAX_SAFE_INTEGER`, which `BigNumber.from` does not take any more.
abbrev pub max_safe : ℕ
max_safe = 9007199254740991

abbrev pub magnitude : ℤ → ℕ
magnitude z = pos_part z + neg_part z

abbrev pub is_safe : ℤ → Bool
is_safe z = ltb (magnitude z) max_safe

-- `BigNumber.from` of a number; `none` is its exception.
unfoldable pub from_number : JsNumber → Option ℤ
from_number (whole z) = if is_safe z then some z else none
from_number (fraction z) = none
from_number nan = none
from_number infinite = none
from_number minus_infinite = none

-- `toNumber()` is an exception from 2^53 on.
abbrev pub to_number : ℕ → Option ℕ
to_number n = if leb n max_safe then some n else none

-- An offering with its numbers as `BigNumber`s.
pub record Displayed : Type 0 where
  pub amount : ℕ
  pub bidder : String
  pub start_time : ℕ
  pub end_time : ℕ
  pub theword_id : ℤ
  pub settled : Bool

abbrev pub deserialize_offering : Offering → Displayed
deserialize_offering o = record {
  amount = o.amount;
  bidder = o.bidder;
  start_time = o.start_time;
  end_time = o.end_time;
  theword_id = pos o.theword_id;
  settled = false;
}

-- The empty offering, as it is after deserializeOffering.
abbrev pub empty_thewordder_offering : ℤ → Displayed
empty_thewordder_offering id = record {
  amount = 0;
  bidder = "";
  start_time = 0;
  end_time = 0;
  theword_id = id;
  settled = false;
}

abbrev pub is_id : ℕ → ℤ → Bool
is_id n (pos m) = n == m
is_id n (negsuc m) = false

-- The outer `none` is the exception of `BigNumber.from` for a state without an active offering.
unfoldable pub find_offering : ℤ → List OfferingState → Option (Option Offering)
find_offering id [] = some none
find_offering id (s ∷ past) =
    let rest = find_offering id past in
    elim s.active_offering [
      | none ↦ none
      | some o ↦ if is_id o.theword_id id then some (some o) else rest
    ]

unfoldable pub generate_empty_thewordder_offering : ℤ → List OfferingState → Option Displayed
generate_empty_thewordder_offering id past = elim (find_offering (next_ℤ id) past) [
  | none ↦ none
  | some none ↦ some (empty_thewordder_offering id)
  | some (some above) ↦
      some (record (empty_thewordder_offering id) { start_time = above.start_time })
]

-- The first state with an active offering of the given id.
unfoldable pub find_past : ℕ → List OfferingState → Option OfferingState
find_past id [] = none
find_past id (s ∷ past) =
    let rest = find_past id past in
    elim s.active_offering [ none ↦ rest | some o ↦ if o.theword_id == id then some s else rest ]

abbrev pub past_to_show : Option OfferingState → Option Displayed
past_to_show none = none
past_to_show (some s) = elim s.active_offering [
  | none ↦ none
  | some o ↦ some (deserialize_offering o)
]

-- The first state whose id is the number; the outer `none` is the exception of `toNumber` for an id
-- on the way to it.
unfoldable pub find_shown : ℤ → List OfferingState → Option (Option OfferingState)
find_shown id [] = some none
find_shown id (s ∷ past) =
    let rest = find_shown id past in
    elim s.active_offering [
      | none ↦ rest
      | some o ↦ elim (to_number o.theword_id) [
        | none ↦ none
        | some n ↦ if is_id n id then some (some s) else rest
      ]
    ]

-- The past offering to show, and the empty one of a word of the founders.
unfoldable pub other_offering : ℤ → List OfferingState → Option (Option Displayed)
other_offering id past =
    if is_thewordder_theword (magnitude id)
    then elim (generate_empty_thewordder_offering id past) [ none ↦ none | some o ↦ some (some o) ]
    else elim (find_shown id past) [ none ↦ none | some s ↦ some (past_to_show s) ]

-- The offering to show, from the number on display, the current offering and the past ones; the outer
-- `none` is an exception.
unfoldable pub on_display_offering :
    Option JsNumber → Option Offering → List OfferingState → Option (Option Displayed)
on_display_offering none current past = some none
on_display_offering (some number) none past = some none
on_display_offering (some number) (some current) past = elim (from_number number) [
  | none ↦ none
  | some id ↦
      if is_id current.theword_id id
      then some (some (deserialize_offering current))
      else other_offering id past
]

abbrev pub deserialize_bid : BidEvent → BidEvent
deserialize_bid b = record {
  theword_id = b.theword_id;
  sender = b.sender;
  value = b.value;
  extended = b.extended;
  transaction_hash = b.transaction_hash;
  timestamp = b.timestamp;
}

-- The stable sort by the comparison `b.timestamp - a.timestamp`, of times that toNumber can read.
unfoldable pub insert_bid : BidEvent → List BidEvent → List BidEvent
insert_bid b [] = b ∷ []
insert_bid b (c ∷ bids) =
    let rest = insert_bid b bids in if ltb b.timestamp c.timestamp then c ∷ rest else b ∷ c ∷ bids

unfoldable pub deserialize_bids : List BidEvent → List BidEvent
deserialize_bids [] = []
deserialize_bids (b ∷ bids) = insert_bid (deserialize_bid b) (deserialize_bids bids)

abbrev pub is_last_id : Option ℕ → ℕ → Bool
is_last_id none id = false
is_last_id (some last) id = last == id

unfoldable pub offering_bids :
    ℕ → Option ℕ → List BidEvent → List OfferingState → Option (List BidEvent)
offering_bids id last last_bids past =
    if is_last_id last id
    then some (deserialize_bids last_bids)
    else elim (find_past id past) [ none ↦ none | some s ↦ some (deserialize_bids s.bids) ]
