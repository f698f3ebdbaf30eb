-- ===== src/Webapp/BidForm/Minimum.antt =====
-- Which bids are placed, and when the form cannot be shown.
use theword_monorepo.Prelude.{
  ℕ, ◌+◌, ◌*◌, ◌/◌, ◌%◌, ◌≤◌, ◌≡◌, ◌≢◌, refl, false, Option, none, some, [], ◌∷◌, ◌==◌, arith, inl,
  inr, Option-cases,
}
use theword_monorepo.Sdk.Hex.{Text}
use theword_monorepo.Webapp.Offering.{Offering}
use theword_monorepo.Webapp.BidForm.{
  compute_minimum_next_bid, from_number, min_bid_eth, Click, placed, place_value, place_bid_handler,
  render_minimum,
}

-- The contract's least amount, with the division of integers rounded down.
abbrev pub contract_minimum : ℕ → ℕ → ℕ
contract_minimum amount percentage = amount + amount * percentage / 100

times-split :
    (amount percentage : ℕ) → amount * (100 + percentage) ≡ amount * 100 + amount * percentage
times-split amount percentage = grind arith

at_least :
    (value amount percentage : ℕ)
    → amount * (100 + percentage) ≤ value * 100
    → contract_minimum amount percentage ≤ value
at_least value amount percentage h = omega (arith, times-split amount percentage)

not_whole :
    (amount percentage : ℕ)
    → amount * percentage % 100 ≢ 0
    → (amount * (100 + percentage)) % 100 ≢ 0
not_whole amount percentage h = omega (arith, times-split amount percentage)

module _ (parse_ether : Text → Option ℕ) (to_cents : ℕ → Text) where
  place_value-placed :
      (theword_id min_bid value id v : ℕ)
      → place_value parse_ether to_cents theword_id min_bid value ≡ some (placed id v)
      → (id ≡ theword_id) × (v ≡ value) × (min_bid ≤ value * 100)
  unfolding place_value
  place_value-placed theword_id min_bid value id v h = ground arith

  -- A transaction that the form sends is for the offering that is shown, has the value that was typed,
  -- and its value is not below the amount that the contract asks for, the current bid and its
  -- percentage rounded down, if the percentage is known.
  pub place_bid_handler-placed :
      (o : Offering) (percentage : ℕ) (element : Option Text) (id v : ℕ)
      → place_bid_handler parse_ether to_cents (some o) (some percentage) element
        ≡ some (placed id v)
      → (id ≡ o.theword_id)
        × ((text : Text) × ((element ≡ some text) × (parse_ether text ≡ some v)))
        × (contract_minimum o.amount percentage ≤ v)
  unfolding place_bid_handler compute_minimum_next_bid
  place_bid_handler-placed o percentage none id v h = cc
  place_bid_handler-placed o percentage (some []) id v h = cc
  place_bid_handler-placed o percentage (some (c ∷ t)) id v h =
      elim (Option-cases (parse_ether (c ∷ t))) [
        | inl e ↦
            let wrong : ◌≡◌ {A = Option Click} none (some (placed id v)) =
              rw (e, place_bid_handler) at h in
            absurd (cc)
        | inr (value, e) ↦
            let there = rw (e, place_bid_handler) at h in
            let (i, w, le) =
              place_value-placed o.theword_id (o.amount * (100 + percentage)) value id v there in
            (i, (c ∷ t, (refl, rw w e)), rw w (at_least value o.amount percentage le))
      ]

  -- If the percentage of the current bid is not a whole number of wei, the line with the smallest bid
  -- raises an exception while the offering runs, and the form is not shown.
  pub render_minimum-throws :
      (o : Offering) (percentage : ℕ)
      → o.amount * percentage % 100 ≢ 0
      → render_minimum parse_ether to_cents false o (some percentage) ≡ none
  unfolding render_minimum min_bid_eth from_number compute_minimum_next_bid
  render_minimum-throws o percentage h =
      let n = not_whole o.amount percentage h in
      let fraction : (o.amount * (100 + percentage) % 100 == 0) ≡ false = ground arith in
      let positive : (o.amount * (100 + percentage) == 0) ≡ false = ground arith in
      rw (positive, fraction) refl
