-- ===== src/Webapp/Tests.antt =====
-- Runs of the reducers on concrete actions, and the theorems at them.
use theword_monorepo.Prelude.{ℕ, ◌≤◌, ◌≡◌, refl, false, none, some, List, [], ◌∷◌, arith}
use theword_monorepo.Webapp.Offering.{
  Offering, BidEvent, OfferingState, initial_state, append_bid, contains_bid, Action, set_active,
  append, run,
}
use theword_monorepo.Webapp.Offering.Bids.{IsUnique, run-IsUnique, Leads, append_bid-Leads}
use theword_monorepo.Webapp.Offering.Own.{IsOwn, run-IsOwn}
use theword_monorepo.Webapp.OnDisplay.{
  whole, set_prev, set_next, prev, next, navigate, showing, navigate-showing, next_prev,
}
use theword_monorepo.Webapp.Logs.{add, fetched, failed}
use theword_monorepo.Webapp.Logs as Logs
use theword_monorepo.Webapp.Logs.Monotone.{Advances, run-Advances}
use mathlib.Core.List.{Perm}
use theword_monorepo.Prelude.Int.{pos, negsuc, ltb_ℤ, ◌-ℤ◌}
use theword_monorepo.Webapp.Display.{
  OfferingData, redux_safe_past_offerings, on_display_offering, deserialize_bids,
}
use theword_monorepo.Webapp.Display.Shown.{Shows, on_display_offering-Shows}
use theword_monorepo.Webapp.Display.Sorted.{IsLatestFirst, deserialize_bids-sorted}
use theword_monorepo.Webapp.BidOrder.{
  OrderedBid, is_before, compare_bids, compare_bids_chronologically, compare_bids_sign,
}

abbrev low : BidEvent
low = record {
  theword_id = 4;
  sender = "0xa1";
  value = 5;
  extended = false;
  transaction_hash = "0x01";
  timestamp = 10;
}

abbrev high : BidEvent
high = record {
  theword_id = 4;
  sender = "0xb2";
  value = 9;
  extended = false;
  transaction_hash = "0x02";
  timestamp = 11;
}

abbrev fourth : Offering
fourth = record {
  amount = 9;
  bidder = "0xb2";
  start_time = 1;
  end_time = 100;
  theword_id = 4;
  settled = false;
}

abbrev with_high : OfferingState
with_high = record { active_offering = some fourth; bids = high ∷ [] }

abbrev some_actions : List Action
some_actions =
    set_active (record { theword_id = 4; start_time = 1; end_time = 100; settled = false })
    ∷ append low
    ∷ append high
    ∷ append low
    ∷ []

run-IsUnique_example : IsUnique (run some_actions initial_state).bids
unfolding IsUnique
run-IsUnique_example = run-IsUnique some_actions initial_state tt

run-IsOwn_example : IsOwn (run some_actions initial_state)
run-IsOwn_example = run-IsOwn some_actions initial_state (tt, (tt, (tt, (tt, tt)))) tt

append_bid-Leads_example :
    (o' : Offering) × (((append_bid low with_high).active_offering ≡ some o'
        × (append_bid low with_high).bids ≡ low ∷ high ∷ [])
      × ((o'.theword_id ≡ 4 × o'.end_time ≡ 100) × Leads o' (append_bid low with_high).bids))
unfolding contains_bid
append_bid-Leads_example = append_bid-Leads low with_high fourth refl refl refl

navigate_four :
    (d' : ℕ) × ((d' ≤ 6) × (navigate (next ∷ next ∷ prev ∷ next ∷ []) (showing 6 5) ≡ showing 6 d'))
navigate_four = navigate-showing (next ∷ next ∷ prev ∷ next ∷ []) 6 5 (omega arith)

next_then_prev :
    (set_prev (set_next (showing 6 5)) ≡ showing 6 5)
    × (set_next (set_prev (showing 6 6)) ≡ showing 6 6)
next_then_prev = next_prev 6 5 (omega arith)

run-Advances_example :
    Advances [] (Logs.run (add "key" ∷ fetched "key" 9 [] ∷ failed "key" 7 ∷ []) [])
run-Advances_example = run-Advances (add "key" ∷ fetched "key" 9 [] ∷ failed "key" 7 ∷ []) []

-- Two past offerings, of which the second one is on display.
abbrev past_data : List OfferingData
past_data =
    record { id = 12; amount = 3; bidder = some "0xa1"; start_time = 5; end_time = 9; bids = [] }
    ∷ record { id = 11; amount = 2; bidder = none; start_time = 1; end_time = 4; bids = [] }
    ∷ []

on_display_offering-Shows_example : Shows (pos 11) (
    on_display_offering (some (whole (pos 11))) (some fourth) (redux_safe_past_offerings past_data))
on_display_offering-Shows_example =
    on_display_offering-Shows (pos 11) fourth past_data refl (omega arith, (omega arith, tt))

deserialize_bids-sorted_example :
    Perm (deserialize_bids (low ∷ high ∷ [])) (low ∷ high ∷ [])
    × IsLatestFirst (deserialize_bids (low ∷ high ∷ []))
deserialize_bids-sorted_example = deserialize_bids-sorted (low ∷ high ∷ [])

abbrev ordered_bid : ℕ → OrderedBid
ordered_bid tx = record { block_number = 20; block_timestamp = 300; tx_index = tx }

compare_bids_sign_example :
    (ltb_ℤ (negsuc 2) (pos 0) ≡ is_before 20 4 20 7)
    × (ltb_ℤ (pos 3) (pos 0) ≡ is_before 300 7 300 4)
unfolding compare_bids compare_bids_chronologically ◌-ℤ◌
compare_bids_sign_example =
    compare_bids_sign (ordered_bid 4) (ordered_bid 7) (negsuc 2) (pos 3) (omega arith) (omega arith)
      refl refl
