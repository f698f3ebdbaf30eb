-- ===== src/Bots/Tests.antt =====
-- Ticks of the bots on concrete answers, and the theorems at them.
use theword_monorepo.Prelude.{◌+◌, ◌≡◌, refl, true, false, none, some, [], ◌∷◌}
use theword_monorepo.Bots.{
  Bid, OfferingBids, Services, refused, answered, tweet, reply, with_png, send_one, send_all,
  discord_new_bid, handle_new_offering, handle_new_bid, handle_ending_soon, check_offering,
  check_bid, check_ending, cold, get_offering_cache, process_offering_tick, run,
}
use theword_monorepo.Bots.Genesis.{tweets, genesis_is_silent}
use theword_monorepo.Bots.Order.{Falls, offering_tweets, run-FallsIn}

abbrev services : Services
services = record {
  twitter_enabled = true;
  discord_enabled = true;
  discord_clients = "internal" ∷ "public" ∷ [];
  png = λ id. some true;
  post_tweet = λ posts. answered "tweet";
  format_bid = λ id bid. true;
  takes_message = λ posts. true;
}

abbrev a_bid : Bid
a_bid = record { id = "0xfd"; amount = "7"; bidder = "0xb2" }

abbrev genesis : OfferingBids
genesis = record { id = 0; end_time = 1000; bids = a_bid ∷ [] }

abbrev third : OfferingBids
third = record { id = 3; end_time = 5000; bids = a_bid ∷ [] }

-- The same services while Twitter refuses every post.
abbrev refusing : Services
refusing = record services { post_tweet = λ posts. refused }

-- A refused tweet ends the tick: the bid is not looked at, and the second tick announces it.
refused_tick :
    ((process_offering_tick refusing third 100 cold).1 ≡ false)
    × ((process_offering_tick refusing third 100 cold).0.bid_cache ≡ none)
    × ((process_offering_tick services third 100
          (process_offering_tick refusing third 100 cold).0).0.bid_cache
        ≡ some "0xfd")
unfolding process_offering_tick check_offering check_bid check_ending handle_new_offering
    handle_new_bid handle_ending_soon with_png tweet reply send_one send_all discord_new_bid
refused_tick = (refl, refl, refl)

genesis_is_silent_example :
    tweets (run services ((genesis, 100) ∷ (genesis, 900) ∷ []) cold).posts ≡ []
genesis_is_silent_example =
    genesis_is_silent services ((genesis, 100) ∷ (genesis, 900) ∷ []) (refl, (refl, tt))

run-FallsIn_example :
    Falls
      (get_offering_cache (run services ((genesis, 100) ∷ (third, 4900) ∷ []) cold) + 1)
      (offering_tweets (run services ((genesis, 100) ∷ (third, 4900) ∷ []) cold).posts)
run-FallsIn_example = run-FallsIn services ((genesis, 100) ∷ (third, 4900) ∷ []) cold tt
