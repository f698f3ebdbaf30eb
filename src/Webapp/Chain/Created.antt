-- ===== src/Webapp/Chain/Created.antt =====
-- What the page shows when an offering starts, and while bids arrive.
use theword_monorepo.Prelude.{
  ℕ, ◌≤◌, ◌≡◌, refl, ap, true, some, List, [], ◌∷◌, map, arith, ◌==◌, inl, inr, Bool-cases, All,
}
use theword_monorepo.Webapp.Offering.{
  Offering, BidEvent, OfferingState, append_bid, max_bid, contains_bid, set_active_offering,
}
use theword_monorepo.Webapp.Offering.Bids.{max_bid-bounds}
use theword_monorepo.Webapp.OnDisplay.{whole, set_last, set_on_display}
use theword_monorepo.Webapp.Display.{is_safe, Displayed, on_display_offering, deserialize_offering}
use theword_monorepo.Webapp.Display.Shown.{from_number-whole}
use theword_monorepo.Prelude.Int.{pos}
use theword_monorepo.Webapp.Chain.{
  RootState, process_bid_filter, process_offering_created, displayed, step, bid, run,
}

-- The offering that started with this id, start and end is active, and no bid is above its amount.
abbrev pub Runs : ℕ → ℕ → ℕ → OfferingState → Offering → Type 0
Runs id start_time end_time s o =
    (s.active_offering ≡ some o)
    × (o.theword_id ≡ id)
    × (o.start_time ≡ start_time)
    × (o.end_time ≡ end_time)
    × All (λ b. b.value ≤ o.amount) s.bids

append_bid-Runs :
    (id start_time end_time : ℕ) (e : BidEvent) (s : OfferingState) (o : Offering)
    → Runs id start_time end_time s o
    → (o' : Offering) × Runs id start_time end_time (append_bid e s) o'
unfolding append_bid
append_bid-Runs id start_time end_time e s o (h, i, b, t, a) =
    elim (Bool-cases (o.theword_id == e.theword_id)) [
      | inr other ↦ (o, rw (h, other, append_bid) (h, i, b, t, a))
      | inl same ↦ elim (Bool-cases (contains_bid s.bids e)) [
        | inl known ↦ (o, rw (h, same, known, append_bid) (h, i, b, t, a))
        | inr fresh ↦ (
          record o { amount = (max_bid e s.bids).value; bidder = (max_bid e s.bids).sender },
          rw (h, same, fresh, append_bid) (refl, i, b, t, max_bid-bounds e s.bids),
        )
      ]
    ]

-- The offering with this id is on display, and runs.
IsRunning : ℕ → ℕ → ℕ → RootState → Type 0
IsRunning id start_time end_time s =
    (s.display.on_display ≡ some (whole (pos id)))
    × ((o : Offering) × Runs id start_time end_time s.offering o)

run-IsRunning :
    (id start_time end_time : ℕ) (bids : List BidEvent) (s : RootState)
    → IsRunning id start_time end_time s
    → IsRunning id start_time end_time (run (map bid bids) s)
unfolding run step process_bid_filter IsRunning
run-IsRunning id start_time end_time [] s h = h
run-IsRunning id start_time end_time (e ∷ bids) s (d, (o, r)) =
    run-IsRunning id start_time end_time bids (process_bid_filter e s)
      (d, append_bid-Runs id start_time end_time e s.offering o r)

created-IsRunning :
    (id start_time end_time : ℕ) (s : RootState)
    → IsRunning id start_time end_time (process_offering_created id start_time end_time s)
unfolding IsRunning process_offering_created set_active_offering set_last set_on_display
created-IsRunning id start_time end_time s = (refl, (_, (refl, refl, refl, refl, tt)))

on_display-current :
    (id : ℕ) (o : Offering) (past : List OfferingState)
    → is_safe (pos id) ≡ true
    → o.theword_id ≡ id
    → on_display_offering (some (whole (pos id))) (some o) past
      ≡ some (some (deserialize_offering o))
unfolding on_display_offering
on_display-current id o past safe e =
    let same : (o.theword_id == id) ≡ true = ground arith in
    rw (from_number-whole (pos id) safe, same, on_display_offering) refl

-- When an offering whose id is below the largest safe integer has started and any bids have arrived
-- after it, the page shows the offering with its id, start and end, and with an amount that no bid of
-- the store is above.
pub created-shown :
    (id start_time end_time : ℕ) (bids : List BidEvent) (s : RootState)
    → is_safe (pos id) ≡ true
    → (o : Displayed) × ((displayed
            (run (map bid bids) (process_offering_created id start_time end_time s))
          ≡ some (some o))
        × (o.theword_id ≡ pos id)
        × (o.start_time ≡ start_time)
        × (o.end_time ≡ end_time)
        × All
            (λ b. b.value ≤ o.amount)
            (run (map bid bids) (process_offering_created id start_time end_time s)).offering.bids)
unfolding IsRunning
created-shown id start_time end_time bids s safe =
    let end = run (map bid bids) (process_offering_created id start_time end_time s) in
    let (d, (o, (h, i, b, t, a))) =
      run-IsRunning id start_time end_time bids (process_offering_created id start_time end_time s)
        (created-IsRunning id start_time end_time s) in
    (
      deserialize_offering o,
      (rw (d, h) (on_display-current id o end.past_offerings safe i), ap pos i, b, t, a),
    )
