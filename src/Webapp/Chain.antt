-- ===== src/Webapp/Chain.antt =====
-- index.tsx (ChainSubscriber, PastOfferings), pages/Offering/index.tsx, the navigation of
-- components/Offering/index.tsx and the button of components/TheWordInfoCard/index.tsx: the slices
-- together, as the contract's events and the user drive them.
pub mod InSync
pub mod Created
mod Tests
use theword_monorepo.Prelude.{
  ℕ, ◌+◌, ◌-◌, String, Bool, true, false, Option, none, some, List, [], ◌∷◌, ltb, leb, ◌||◌, ◌==◌,
  if◌then◌else◌,
}
use theword_monorepo.Prelude.Int.{ℤ, pos, negsuc, ◌+ℤ◌, ◌-ℤ◌}
use theword_monorepo.Webapp.Offering.{
  Offering, BidEvent, OfferingCreateEvent, OfferingSettledEvent, OfferingExtendedEvent,
  OfferingState, initial_state, set_active_offering, set_full_offering, append_bid,
  set_offering_settled, set_offering_extended, redux_safe_bid, redux_safe_offering,
}
use theword_monorepo.Webapp.OnDisplay.{
  JsNumber, whole, fraction, nan, infinite, minus_infinite, OnDisplayOfferingState, set_last,
  set_on_display, set_prev, set_next,
}
use theword_monorepo.Webapp.Display.{
  OfferingData, redux_safe_past_offerings, Displayed, from_number, on_display_offering,
}

-- A path that is pushed to the router: `/theword/…` and `/offering/…`.
pub data PushedPath : Type 0 where
  theword_path : ℕ → PushedPath
  offering_path : ℤ → PushedPath

-- The slices of the store that the events reach, and the paths pushed, the newest first.
pub record RootState : Type 0 where
  pub offering : OfferingState
  pub display : OnDisplayOfferingState
  pub past_offerings : List OfferingState
  pub paths : List PushedPath

abbrev pub initial_root : RootState
initial_root = record {
  offering = initial_state;
  display = record { last = none; on_display = none };
  past_offerings = [];
  paths = [];
}

abbrev pub push_path : PushedPath → RootState → RootState
push_path p s = record s { paths = p ∷ s.paths }

-- A bid comes with the time of its block. The code waits for that time: a bid whose block answers late
-- is a step of its own.
unfoldable pub process_bid_filter : BidEvent → RootState → RootState
process_bid_filter e s = record s { offering = append_bid (redux_safe_bid e) s.offering }

unfoldable pub process_offering_created : ℕ → ℕ → ℕ → RootState → RootState
process_offering_created id start_time end_time s =
    let e : OfferingCreateEvent = record {
      theword_id = id;
      start_time = start_time;
      end_time = end_time;
      settled = false;
    } in
    let s1 = record s { offering = set_active_offering e s.offering } in
    let s2 = push_path (theword_path id) s1 in
    let s3 = record s2 { display = set_on_display (whole (pos id)) s2.display } in
    record s3 { display = set_last id s3.display }

unfoldable pub process_offering_extended : OfferingExtendedEvent → RootState → RootState
process_offering_extended e s = record s { offering = set_offering_extended e s.offering }

unfoldable pub process_offering_settled : OfferingSettledEvent → RootState → RootState
process_offering_settled e s = record s { offering = set_offering_settled e s.offering }

-- The bids of the last day, up to the first event without arguments, at which the loading stops
-- before it subscribes to the events.
unfoldable pub load_bids : List (Option BidEvent) → RootState → RootState × Bool
load_bids [] s = (s, true)
load_bids (none ∷ bids) s = (s, false)
load_bids (some e ∷ bids) s = load_bids bids (process_bid_filter e s)

-- The state after the loading, and whether it subscribed to the events.
unfoldable pub load_state : Offering → List (Option BidEvent) → RootState → RootState × Bool
load_state current previous s =
    let s1 = record s { offering = set_full_offering (redux_safe_offering current) s.offering } in
    let s2 = record s1 { display = set_last current.theword_id s1.display } in load_bids previous s2

unfoldable pub add_past_offerings : List OfferingData → RootState → RootState
add_past_offerings offerings s = record s { past_offerings = redux_safe_past_offerings offerings }

-- What useOnDisplayOffering gives; `none` is an exception, with which no page is there.
abbrev pub displayed : RootState → Option (Option Displayed)
displayed s = on_display_offering s.display.on_display s.offering.active_offering s.past_offerings

-- `number > last`
abbrev pub is_after : JsNumber → ℕ → Bool
is_after (whole (pos n)) last = ltb last n
is_after (whole (negsuc n)) last = false
is_after (fraction (pos n)) last = leb last n
is_after (fraction (negsuc n)) last = false
is_after nan last = false
is_after infinite last = true
is_after minus_infinite last = false

-- `number < 0`
abbrev pub is_negative : JsNumber → Bool
is_negative (whole (pos n)) = false
is_negative (whole (negsuc n)) = true
is_negative (fraction (pos n)) = false
is_negative (fraction (negsuc n)) = true
is_negative nan = false
is_negative infinite = false
is_negative minus_infinite = true

-- The last id, unless it is not there or 0.
abbrev pub truthy_last : RootState → Option ℕ
truthy_last s = elim s.display.last [
  | none ↦ none
  | some last ↦ if last == 0 then none else some last
]

abbrev pub show : JsNumber → RootState → RootState
show n s = record s { display = set_on_display n s.display }

-- The effect of the offering page for the number in its path, from the last id and what is displayed.
unfoldable pub page_effect_from : Option JsNumber → ℕ → Option Displayed → RootState → RootState
page_effect_from none last o s = show (whole (pos last)) s
page_effect_from (some n) last o s =
    if is_after n last || is_negative n
    then push_path (theword_path last) (show (whole (pos last)) s)
    else elim o [ none ↦ show n s | some d ↦ s ]

-- The effect runs where the page could be rendered.
unfoldable pub page_effect : Option JsNumber → RootState → RootState
page_effect path s = elim (displayed s) [
  | none ↦ s
  | some o ↦ elim (truthy_last s) [ none ↦ s | some last ↦ page_effect_from path last o s ]
]

-- The arrows, on the offering that is shown.
unfoldable pub prev_offering_handler : Displayed → RootState → RootState
prev_offering_handler o s =
    push_path (offering_path (o.theword_id -ℤ pos 1)) (record s { display = set_prev s.display })

unfoldable pub next_offering_handler : Displayed → RootState → RootState
next_offering_handler o s =
    push_path (offering_path (o.theword_id +ℤ pos 1)) (record s { display = set_next s.display })

-- The arrows are there with an offering that is shown and a last id.
unfoldable pub with_arrows : (Displayed → RootState → RootState) → RootState → RootState
with_arrows handler s = elim (displayed s) [
  | none ↦ s
  | some none ↦ s
  | some (some o) ↦ elim (truthy_last s) [ none ↦ s | some last ↦ handler o s ]
]

-- The smaller of the number in the path of a profile and the last id.
abbrev pub min_number : JsNumber → ℕ → JsNumber
min_number n last = if is_after n last then whole (pos last) else n

-- The button `Bid history` of the profile page, which is not there without a last id or where
-- `BigNumber.from` raises an exception.
unfoldable pub bid_history_button_click_handler : JsNumber → RootState → RootState
bid_history_button_click_handler path s = elim (truthy_last s) [
  | none ↦ s
  | some last ↦ elim (from_number (min_number path last)) [
    | none ↦ s
    | some id ↦ push_path (offering_path id) (show (whole id) s)
  ]
]

-- What happens after the loading: an event of the contract, the answer of the subgraph, the effect of
-- the offering page, a click on an arrow, or one on the bid history of a profile.
pub data Step : Type 0 where
  bid : BidEvent → Step
  created : ℕ → ℕ → ℕ → Step
  extended : OfferingExtendedEvent → Step
  settled : OfferingSettledEvent → Step
  queried : List OfferingData → Step
  opened : Option JsNumber → Step
  went_back : Step
  went_on : Step
  asked_for_bids : JsNumber → Step

unfoldable pub step : Step → RootState → RootState
step (bid e) s = process_bid_filter e s
step (created id start_time end_time) s = process_offering_created id start_time end_time s
step (extended e) s = process_offering_extended e s
step (settled e) s = process_offering_settled e s
step (queried offerings) s = add_past_offerings offerings s
step (opened path) s = page_effect path s
step went_back s = with_arrows prev_offering_handler s
step went_on s = with_arrows next_offering_handler s
step (asked_for_bids path) s = bid_history_button_click_handler path s

unfoldable pub run : List Step → RootState → RootState
run [] s = s
run (x ∷ steps) s = run steps (step x s)
