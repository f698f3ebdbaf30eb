-- ===== src/Webapp/Chain/Tests.antt =====
-- The subscriber and the pages on concrete events, and the theorems at them.
use theword_monorepo.Prelude.{◌≤◌, ◌≡◌, refl, false, none, some, List, [], ◌∷◌, All, map}
use theword_monorepo.Prelude.Int.{pos}
use theword_monorepo.Webapp.OnDisplay.{whole, nan, infinite, set_last, set_on_display}
use theword_monorepo.Webapp.Display.{Displayed, on_display_offering, from_number}
use theword_monorepo.Webapp.Offering.{Offering, BidEvent, set_full_offering}
use theword_monorepo.Webapp.Chain.{
  theword_path, offering_path, asked_for_bids, went_on, page_effect_from,
  bid_history_button_click_handler, initial_root, load_bids, load_state, process_offering_created,
  displayed, page_effect, Step, bid, created, opened, went_back, run,
}
use theword_monorepo.Webapp.Chain.InSync.{IsInSync, run-IsInSync}
use theword_monorepo.Webapp.Chain.Created.{created-shown}

abbrev eleventh : Offering
eleventh = record {
  amount = 3;
  bidder = "0xa1";
  start_time = 10;
  end_time = 90;
  theword_id = 11;
  settled = false;
}

abbrev a_bid : BidEvent
a_bid = record {
  theword_id = 12;
  sender = "0xb2";
  value = 5;
  extended = false;
  transaction_hash = "0x02";
  timestamp = 120;
}

abbrev some_steps : List Step
some_steps =
    opened (some (whole (pos 7)))
    ∷ went_back
    ∷ created 12 100 200
    ∷ bid a_bid
    ∷ asked_for_bids infinite
    ∷ went_on
    ∷ opened (some nan)
    ∷ []

run-IsInSync_example :
    IsInSync (run some_steps (load_state eleventh (some a_bid ∷ none ∷ []) initial_root).0)
run-IsInSync_example = run-IsInSync eleventh (some a_bid ∷ none ∷ []) some_steps

shown_twelfth :
    (o : Displayed) × ((displayed
          (run (map bid (a_bid ∷ [])) (process_offering_created 12 100 200 initial_root))
        ≡ some (some o))
      × (o.theword_id ≡ pos 12)
      × (o.start_time ≡ 100)
      × (o.end_time ≡ 200)
      × All
          (λ b. b.value ≤ o.amount)
          (run
            (map bid (a_bid ∷ []))
            (process_offering_created 12 100 200 initial_root)).offering.bids)
shown_twelfth = created-shown 12 100 200 (a_bid ∷ []) initial_root refl

-- The path of an offering that is not there yet leads to the last one.
after_the_last :
    (page_effect (some (whole (pos 40))) (load_state eleventh [] initial_root).0).paths
    ≡ theword_path 11 ∷ []
unfolding page_effect page_effect_from set_on_display on_display_offering load_state load_bids
    set_last
after_the_last = refl

-- A path that is no number is put on display, and no page is there any more.
not_a_number : (displayed (page_effect (some nan) (load_state eleventh [] initial_root).0) ≡ none)
unfolding page_effect page_effect_from set_on_display on_display_offering from_number load_state
    load_bids set_last set_full_offering
not_a_number = refl

-- A profile beyond the last word asks for the bids of the last one.
last_profile :
    (bid_history_button_click_handler
      (whole (pos 40))
      (load_state eleventh [] initial_root).0).paths
    ≡ offering_path (pos 11) ∷ []
unfolding bid_history_button_click_handler from_number set_on_display load_state load_bids set_last
last_profile = refl
