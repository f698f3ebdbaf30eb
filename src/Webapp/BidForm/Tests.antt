-- ===== src/Webapp/BidForm/Tests.antt =====
-- The form on concrete bids, and the theorems at them.
use theword_monorepo.Prelude.{
  ℕ, ◌≡◌, ◌≤◌, refl, false, Option, none, some, [], ◌∷◌, ◌==◌, if◌then◌else◌, arith,
}
use theword_monorepo.Sdk.Hex.{Text}
use theword_monorepo.Webapp.Offering.{Offering}
use theword_monorepo.Webapp.BidForm.{
  place_bid_handler, place_value, compute_minimum_next_bid, render_minimum, bid_input_handler,
  FormState,
}
use theword_monorepo.Webapp.BidForm.Minimum.{
  contract_minimum, place_bid_handler-placed, render_minimum-throws,
}

abbrev an_offering : ℕ → Offering
an_offering amount = record {
  amount = amount;
  bidder = "0xa1";
  start_time = 1;
  end_time = 100;
  theword_id = 4;
  settled = false;
}

-- One digit, as so many tenths of a thousand wei.
abbrev parse_ether : Text → Option ℕ
parse_ether [] = none
parse_ether (c ∷ t) = if c == b'3' then some 300 else none

abbrev to_cents : ℕ → Text
to_cents wei = b'1' ∷ []

place_bid_handler-placed_example :
    (4 ≡ (an_offering 285).theword_id)
    × ((text : Text) × ((some (b'3' ∷ []) ≡ some text) × (parse_ether text ≡ some 300)))
    × (contract_minimum 285 5 ≤ 300)
unfolding place_bid_handler place_value compute_minimum_next_bid
place_bid_handler-placed_example =
    place_bid_handler-placed parse_ether to_cents (an_offering 285) 5 (some (b'3' ∷ [])) 4 300 refl

render_minimum-throws_example :
    render_minimum parse_ether to_cents false (an_offering 1001) (some 5) ≡ none
render_minimum-throws_example =
    render_minimum-throws parse_ether to_cents (an_offering 1001) 5 (omega arith)

abbrev empty_form : FormState
empty_form = record {
  bid_input = [];
  element = none;
  loading = false;
  content = "Bid";
  modal = none;
}

-- A third digit after the point is not taken over.
third_digit : bid_input_handler (b'1' ∷ b'.' ∷ b'2' ∷ b'3' ∷ b'4' ∷ []) empty_form ≡ empty_form
unfolding bid_input_handler
third_digit = refl
