-- ===== src/Bots/Genesis.antt =====
-- What the bots tweet while the last offering is the one with id 0.
use theword_monorepo.Prelude.{
  ℕ, ◌≡◌, refl, String, true, false, none, some, List, [], ◌∷◌, arith, str_eq, inl, inr, Bool-cases,
  All,
}
use theword_monorepo.Bots.{
  Bid, OfferingBids, Post, tweet_offering, reply_bid, reply_ending, send_offering, send_bid,
  BotState, Services, cold, get_offering_cache, get_ending_soon_cache, get_bid_cache, count_tick,
  reply, send_one, send_all, discord_new_bid, handle_new_bid, check_offering, check_bid,
  check_ending, process_offering_tick, run,
}
use theword_monorepo.Bots.Handlers.{also-keeps, after-keeps, if-keeps}

-- The posts on Twitter.
abbrev pub tweets : List Post → List Post
tweets [] = []
tweets (tweet_offering id ∷ posts) = tweet_offering id ∷ tweets posts
tweets (reply_bid to id bid ∷ posts) = reply_bid to id bid ∷ tweets posts
tweets (reply_ending to ∷ posts) = reply_ending to ∷ tweets posts
tweets (send_offering c id ∷ posts) = tweets posts
tweets (send_bid c id bid ∷ posts) = tweets posts

-- There is no tweet and none to reply to.
record IsSilent (s : BotState) : Type 0 where
  pub no_reply : s.reply_tweet_id ≡ none
  pub no_tweet : tweets s.posts ≡ []

module _ (v : Services) where
  send_all-IsSilent :
      (clients : List String) (id : ℕ) (bid : Bid) (s : BotState)
      → IsSilent s
      → IsSilent (send_all v clients (λ c. send_bid c id bid) s).0
  unfolding send_all send_one
  send_all-IsSilent [] id bid s h = h
  send_all-IsSilent (c ∷ clients) id bid s h =
      also-keeps v IsSilent true (send_all v clients (λ c. send_bid c id bid))
        (send_one v (send_bid c id bid) s) (λ t k. send_all-IsSilent clients id bid t k)
        (if-keeps v IsSilent (v.takes_message (send_bid c id bid ∷ s.posts))
          (record s { posts = send_bid c id bid ∷ s.posts }, true) (s, false)
          (record { no_reply = h.no_reply; no_tweet = h.no_tweet }) h)

  reply_without_tweet :
      (post : String → Post) (s : BotState) → s.reply_tweet_id ≡ none → reply v post s ≡ (s, true)
  unfolding reply
  reply_without_tweet post s h = ground arith

  handle_new_bid-IsSilent :
      (id : ℕ) (bid : Bid) (s : BotState) → IsSilent s → IsSilent (handle_new_bid v id bid s).0
  unfolding handle_new_bid discord_new_bid
  handle_new_bid-IsSilent id bid s h =
      also-keeps v IsSilent v.discord_enabled (discord_new_bid v id bid) _
        (λ t k.
          if-keeps v IsSilent (v.format_bid id bid) _ (t, false)
            (send_all-IsSilent v.discord_clients id bid t k) k)
        (also-keeps v IsSilent v.twitter_enabled _ (s, true)
          (λ t k. rw (reply_without_tweet (λ to. reply_bid to id bid) t k.no_reply) k) h)

  check_bid-IsSilent :
      (cached : String) (last : ℕ) (bids : List Bid) (s : BotState)
      → IsSilent s
      → IsSilent (check_bid v cached last bids s).0
  unfolding check_bid
  check_bid-IsSilent cached last [] s h = h
  check_bid-IsSilent cached last (bid ∷ bids) s h = elim (Bool-cases (str_eq cached bid.id)) [
    | inl same ↦ rw same h
    | inr other ↦ rw other (
        handle_new_bid-IsSilent last bid (record s { bid_cache = some bid.id })
          (record { no_reply = h.no_reply; no_tweet = h.no_tweet }))
  ]

  check_offering_zero : (cached : ℕ) (s : BotState) → check_offering v cached 0 s ≡ (s, true)
  unfolding check_offering
  check_offering_zero cached s = ground arith

  check_ending_zero :
      (cached e now : ℕ) (s : BotState) → check_ending v cached 0 e now s ≡ (s, true)
  unfolding check_ending
  check_ending_zero cached e now s = ground arith

  tick-IsSilent :
      (last : OfferingBids) (now : ℕ) (s : BotState)
      → last.id ≡ 0
      → IsSilent s
      → IsSilent (process_offering_tick v last now s).0
  unfolding process_offering_tick
  tick-IsSilent last now s z h =
      rw (z, check_offering_zero (get_offering_cache s) s)
        (after-keeps v IsSilent (check_bid v (get_bid_cache s) 0 last.bids (count_tick s))
          (λ s3. check_ending v (get_ending_soon_cache s) 0 last.end_time now s3)
          (check_bid-IsSilent (get_bid_cache s) 0 last.bids (count_tick s)
            (record { no_reply = h.no_reply; no_tweet = h.no_tweet }))
          (λ t k. rw (check_ending_zero (get_ending_soon_cache s) last.end_time now t) k))

  run-IsSilent :
      (ticks : List (OfferingBids × ℕ)) (s : BotState)
      → All (λ t. t.0.id ≡ 0) ticks
      → IsSilent s
      → IsSilent (run v ticks s)
  unfolding run
  run-IsSilent [] s a h = h
  run-IsSilent ((last, now) ∷ ticks) s (z, a) h =
      run-IsSilent ticks (process_offering_tick v last now s).0 a (tick-IsSilent last now s z h)

-- From empty caches, over any sequence of ticks in which the last offering has id 0, nothing is
-- tweeted: neither that offering, nor a bid on it, nor that it ends soon.
pub genesis_is_silent :
    (v : Services) (ticks : List (OfferingBids × ℕ))
    → All (λ t. t.0.id ≡ 0) ticks
    → tweets (run v ticks cold).posts ≡ []
genesis_is_silent v ticks a =
    (run-IsSilent v ticks cold a (record { no_reply = refl; no_tweet = refl })).no_tweet
