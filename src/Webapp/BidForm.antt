-- ===== src/Webapp/BidForm.antt =====
-- components/Bid: the form that places a bid or settles the offering. Amounts are in wei; the reading of
-- an amount of ether and the arithmetic of floating-point numbers are parameters. `none` is an
-- exception.
pub mod Minimum
mod Tests
use theword_monorepo.Prelude.{
  ℕ, zero, suc, ◌+◌, ◌*◌, ◌/◌, ◌%◌, ◌^◌, String, Bool, true, false, not, ◌&&◌, ◌||◌, Option, none,
  some, List, [], ◌∷◌, ltb, leb, ◌==◌, if◌then◌else◌, str_eq, length,
}
use theword_monorepo.Sdk.Hex.{Text}
use theword_monorepo.Webapp.Offering.{Offering}
use theword_monorepo.Webapp.Transactions.{
  TransactionState, idle, pending_signature, mining, success, fail, exception, TransactionStatus,
  AlertModal, alert, or_text, try_again,
}

-- `currentBid.times(minBidIncPercentage.div(100).plus(1))`, in hundredths of a wei: the product is
-- exact, and may have a fraction. Without the percentage it is 0.
unfoldable pub compute_minimum_next_bid : ℕ → Option ℕ → ℕ
compute_minimum_next_bid current_bid none = 0
compute_minimum_next_bid current_bid (some percentage) = current_bid * (100 + percentage)

-- `EthersBN.from(number.toString())`: the text of a number with a fraction has a point, and that of one
-- from 10^21 on an exponent; both are refused.
unfoldable pub from_number : ℕ → Option ℕ
from_number hundredths =
    if hundredths % 100 == 0
    then (if ltb (hundredths / 100) (10 ^ 21) then some (hundredths / 100) else none)
    else none

-- What stands in the input element, if it is there, and the state of the component.
pub record FormState : Type 0 where
  pub bid_input : Text
  pub element : Option Text
  pub loading : Bool
  pub content : String
  pub modal : Option AlertModal

-- The text after the first point, up to the next one.
abbrev pub up_to_point : Text → Text
up_to_point [] = []
up_to_point (c ∷ t) = let rest = up_to_point t in if c == b'.' then [] else c ∷ rest

abbrev pub decimals : Text → Text
decimals [] = []
decimals (c ∷ t) = let rest = decimals t in if c == b'.' then up_to_point t else rest

-- An input with more than two digits after the point is not taken over.
unfoldable pub bid_input_handler : Text → FormState → FormState
bid_input_handler input s =
    if ltb 2 (length (decimals input)) then s else record s { bid_input = input }

-- What the click on the button comes to: nothing, an alert, or a transaction with a value.
pub data Click : Type 0 where
  ignored : Click
  insufficient : Text → Click
  placed : ℕ → ℕ → Click

abbrev pub is_mining : TransactionState → Bool
is_mining mining = true
is_mining _ = false

module _ (parse_ether : Text → Option ℕ) (to_cents : ℕ → Text) where
  -- The text of the smallest bid, rounded up to hundredths of an ether.
  unfoldable pub min_bid_eth : ℕ → Option Text
  min_bid_eth min_bid =
      if min_bid == 0
      then some (b'0' ∷ b'.' ∷ b'0' ∷ b'1' ∷ [])
      else elim (from_number min_bid) [ none ↦ none | some wei ↦ some (to_cents wei) ]

  -- The bid in the element, 0 if there is none.
  abbrev pub current_bid : Option Text → Option ℕ
  current_bid none = some 0
  current_bid (some []) = some 0
  current_bid (some (c ∷ t)) = parse_ether (c ∷ t)

  -- From the bid in the element on; a bid is compared in hundredths of a wei.
  unfoldable pub place_value : ℕ → ℕ → ℕ → Option Click
  place_value theword_id min_bid value =
      if ltb (value * 100) min_bid
      then elim (min_bid_eth min_bid) [ none ↦ none | some text ↦ some (insufficient text) ]
      else some (placed theword_id value)

  unfoldable pub place_bid_handler : Option Offering → Option ℕ → Option Text → Option Click
  place_bid_handler none percentage element = some ignored
  place_bid_handler (some o) percentage none = some ignored
  place_bid_handler (some o) percentage (some []) = some ignored
  place_bid_handler (some o) percentage (some (c ∷ t)) = elim (parse_ether (c ∷ t)) [
    | none ↦ none
    | some value ↦ place_value o.theword_id (compute_minimum_next_bid o.amount percentage) value
  ]

  -- The line above the form, which an offering that has ended does not have.
  unfoldable pub render_minimum : Bool → Offering → Option ℕ → Option (Option Text)
  render_minimum offering_ended o percentage =
      if offering_ended
      then some none
      else elim (min_bid_eth (compute_minimum_next_bid o.amount percentage)) [
        | none ↦ none
        | some text ↦ some (some text)
      ]

  -- The effect of a change of the offering: the user's bid has become the current one while its
  -- transaction is mined. It gives the state of that transaction too.
  unfoldable pub on_offering :
      Option String
      → Offering
      → TransactionState
      → FormState
      → Option (TransactionState × FormState)
  on_offering none o status s = some (status, s)
  on_offering (some account) o status s = elim (current_bid s.element) [
    | none ↦ none
    | some value ↦
        if is_mining status && str_eq o.bidder account && (value == o.amount)
        then some (
          success,
          record s {
            modal = some (alert "Success" "Bid was placed successfully!");
            loading = false;
            content = "Bid";
            element = elim s.element [ none ↦ none | some t ↦ some [] ];
          },
        )
        else some (status, s)
  ]

abbrev set_button : Bool → String → FormState → FormState
set_button loading content s = record s { loading = loading; content = content }

abbrev failed : String → TransactionStatus → String → FormState → FormState
failed title tx content s =
    set_button false content
      (record s { modal = some (alert title (or_text tx.error_message try_again)) })

-- The effect of the transaction that places a bid; a success is left to the effect of the offering.
unfoldable pub on_place_bid_state : Bool → TransactionStatus → FormState → FormState
on_place_bid_state true tx s = s
on_place_bid_state false tx s = elim tx.status [
  | idle ↦ set_button false "Bid" s
  | pending_signature ↦ s
  | mining ↦ set_button true "" s
  | success ↦ s
  | fail ↦ failed "Transaction Failed" tx "Bid" s
  | exception ↦ failed "Error" tx "Bid" s
]

-- The effect of the transaction that settles the offering.
unfoldable pub on_settle_state : Bool → TransactionStatus → FormState → FormState
on_settle_state false tx s = s
on_settle_state true tx s = elim tx.status [
  | idle ↦ set_button false "Settle Offering" s
  | pending_signature ↦ s
  | mining ↦ set_button true "" s
  | success ↦
      set_button false "Settle Offering"
        (record s { modal = some (alert "Success" "Settled offering successfully!") })
  | fail ↦ failed "Transaction Failed" tx "Settle Offering" s
  | exception ↦ failed "Error" tx "Settle Offering" s
]

-- The button is disabled while a transaction is mined, and without an account.
unfoldable pub is_disabled : TransactionState → TransactionState → Option String → Bool
is_disabled place settle none = true
is_disabled place settle (some account) = is_mining place || is_mining settle
