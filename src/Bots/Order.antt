-- ===== src/Bots/Order.antt =====
-- The offerings that the bots tweet come in order.
use theword_monorepo.Prelude.{
  ℕ, ◌+◌, ◌*◌, ◌<◌, ◌≤◌, ◌≡◌, refl, String, Bool, true, false, Option, none, some, List, [], ◌∷◌,
  arith, ap, ltb, str_eq, if◌then◌else◌, inl, inr, Bool-cases, ◌&&◌, ◌∙◌,
}
use theword_monorepo.Bots.{
  Bid, OfferingBids, Post, tweet_offering, reply_bid, reply_ending, send_offering, send_bid,
  BotState, Services, refused, lost, answered, Outcome, get_offering_cache, get_ending_soon_cache,
  get_bid_cache, increment_counter, also, twitter_new_offering, tweet, count_update, count_tick,
  handle_new_offering, check_offering, check_bid, check_ending, process_offering_tick, run,
}
use theword_monorepo.Bots.Handlers.{
  Allows, also-keeps, after-keeps, with_png-keeps, handle_new_bid-keeps, handle_ending_soon-keeps,
  discord_new_offering-keeps,
}
use theword_monorepo.Bots.Ticks.{check_offering-cache, check_bid-others, check_ending-others}

-- The offerings that were tweeted, the newest first.
abbrev pub offering_tweets : List Post → List ℕ
offering_tweets [] = []
offering_tweets (tweet_offering id ∷ posts) = id ∷ offering_tweets posts
offering_tweets (reply_bid to id bid ∷ posts) = offering_tweets posts
offering_tweets (reply_ending to ∷ posts) = offering_tweets posts
offering_tweets (send_offering c id ∷ posts) = offering_tweets posts
offering_tweets (send_bid c id bid ∷ posts) = offering_tweets posts

-- The ids fall, from below `bound` on.
abbrev pub Falls : ℕ → List ℕ → Type 0
Falls bound [] = Unit
Falls bound (id ∷ ids) = (id < bound) × Falls id ids

Falls-more : (a b : ℕ) (ids : List ℕ) → a ≤ b → Falls a ids → Falls b ids
Falls-more a b [] h f = tt
Falls-more a b (id ∷ ids) h (lt, f) = (omega arith, f)

-- A post that is no tweet of an offering.
abbrev IsOther : Post → Type 0
IsOther p = (posts : List Post) → offering_tweets (p ∷ posts) ≡ offering_tweets posts

-- The offerings tweeted in a state fall from below `bound`.
abbrev FallsIn : ℕ → BotState → Type 0
FallsIn bound s = Falls bound (offering_tweets s.posts)

abbrev id_of : Option ℕ → ℕ
id_of o = elim o [ none ↦ 0 | some id ↦ id ]

module _ (v : Services) where
  other-FallsIn : (bound : ℕ) (p : Post) → IsOther p → Allows v (FallsIn bound) p
  other-FallsIn bound p o t h =
      let f : FallsIn bound (record t { posts = p ∷ t.posts }) = rw (o t.posts) h in (f, λ id. f)

  -- What becomes of a tweet of an offering that is above all others.
  tweet-FallsIn :
      (id : ℕ) (s : BotState) → FallsIn id s → FallsIn (id + 1) (tweet v (tweet_offering id) s).0
  unfolding tweet
  tweet-FallsIn id s f =
      let more : FallsIn (id + 1) s =
        Falls-more id (id + 1) (offering_tweets s.posts) (omega arith) f in
      elim (v.post_tweet (tweet_offering id ∷ s.posts))
        as (λ o.
          FallsIn (id + 1)
            (elim o as (λ x. Outcome) [
              | refused ↦ (s, false)
              | lost ↦ (record s { posts = tweet_offering id ∷ s.posts }, false)
              | answered r ↦
                  (record s { posts = tweet_offering id ∷ s.posts; reply_tweet_id = some r }, true)
            ]).0) [ refused ↦ more | lost ↦ (omega arith, f) | answered r ↦ (omega arith, f) ]

  handle_new_offering-FallsIn :
      (id : ℕ) (s : BotState) → FallsIn id s → FallsIn (id + 1) (handle_new_offering v id s).0
  unfolding handle_new_offering
  handle_new_offering-FallsIn id s f =
      let more : FallsIn (id + 1) s =
        Falls-more id (id + 1) (offering_tweets s.posts) (omega arith) f in
      also-keeps v (FallsIn (id + 1)) v.discord_enabled _ _
        (λ t k.
          discord_new_offering-keeps v (FallsIn (id + 1)) id t
            (λ c. other-FallsIn (id + 1) (send_offering c id) (λ posts. refl)) k)
        (tweeted v.twitter_enabled more)
    where
      tweeted :
          (on : Bool)
          → FallsIn (id + 1) s
          → FallsIn (id + 1) (also on (twitter_new_offering v id) (s, true)).0
      tweeted true more = with_png-keeps v (FallsIn (id + 1)) id _ s (tweet-FallsIn id s f) more
      tweeted false more = more

  check_offering-FallsIn :
      (cached last : ℕ) (s : BotState)
      → FallsIn (cached + 1) s
      → FallsIn ((if ltb cached last then last else cached) + 1) (check_offering v cached last s).0
  unfolding check_offering
  check_offering-FallsIn cached last s f = elim (Bool-cases (ltb cached last)) [
    | inl less ↦
        let lt : cached + 1 ≤ last = ground arith in
        let start = record (increment_counter "bots_offerings_discovered" s) {
          offering_cache = some last;
        } in
        let h = handle_new_offering-FallsIn last start (Falls-more (cached + 1) last _ lt f) in
        rw less (
          after-keeps v (FallsIn (last + 1)) (handle_new_offering v last start) count_update h
            (λ t k. k))
    | inr more ↦ rw more f
  ]

  check_bid-FallsIn :
      (bound : ℕ) (cached : String) (last : ℕ) (bids : List Bid) (s : BotState)
      → FallsIn bound s
      → FallsIn bound (check_bid v cached last bids s).0
  unfolding check_bid
  check_bid-FallsIn bound cached last [] s f = f
  check_bid-FallsIn bound cached last (bid ∷ bids) s f = elim (Bool-cases (str_eq cached bid.id)) [
    | inl e ↦ rw e f
    | inr e ↦ rw e (
        handle_new_bid-keeps v (FallsIn bound) last bid _
          (λ to. other-FallsIn bound (reply_bid to last bid) (λ posts. refl))
          (λ c. other-FallsIn bound (send_bid c last bid) (λ posts. refl)) f)
  ]

  check_ending-FallsIn :
      (bound cached last e now : ℕ) (s : BotState)
      → FallsIn bound s
      → FallsIn bound (check_ending v cached last e now s).0
  unfolding check_ending
  check_ending-FallsIn bound cached last e now s f =
      elim (Bool-cases (ltb e (now + 20 * 60) && ltb cached last)) [
        | inl h ↦ rw h (
            handle_ending_soon-keeps v (FallsIn bound) (record s { ending_soon_cache = some last })
              (λ to. other-FallsIn bound (reply_ending to) (λ posts. refl)) f)
        | inr h ↦ rw h f
      ]

  -- The cache of offerings that a tick leaves, whether or not it came to its end.
  tick-offering_cache :
      (last : OfferingBids) (now : ℕ) (s : BotState)
      → (process_offering_tick v last now s).0.offering_cache
        ≡ (check_offering v (get_offering_cache s) last.id s).0.offering_cache
  unfolding process_offering_tick
  tick-offering_cache last now s =
      let P = λ (t : BotState).
        t.offering_cache ≡ (check_offering v (get_offering_cache s) last.id s).0.offering_cache in
      after-keeps v P (check_offering v (get_offering_cache s) last.id s) _ refl (λ s1 k.
        after-keeps v P (check_bid v (get_bid_cache s) last.id last.bids (count_tick s1)) _
          ((check_bid-others v (get_bid_cache s) last.id last.bids (count_tick s1)).0 ∙ k)
          (λ s3 l.
            (check_ending-others v (get_ending_soon_cache s) last.id last.end_time now s3).0 ∙ l))

  tick-cache :
      (last : OfferingBids) (now : ℕ) (s : BotState)
      → get_offering_cache (process_offering_tick v last now s).0
        ≡ (if ltb (get_offering_cache s) last.id then last.id else get_offering_cache s)
  tick-cache last now s =
      ap id_of
        (tick-offering_cache last now s ∙ check_offering-cache v (get_offering_cache s) last.id s)
      ∙ (elim (Bool-cases (ltb (get_offering_cache s) last.id)) [
        | inl less ↦ rw less refl
        | inr more ↦ rw more refl
      ])

  tick-FallsIn :
      (last : OfferingBids) (now : ℕ) (s : BotState)
      → FallsIn (get_offering_cache s + 1) s
      → FallsIn
          (get_offering_cache (process_offering_tick v last now s).0 + 1)
          (process_offering_tick v last now s).0
  unfolding process_offering_tick
  tick-FallsIn last now s f =
      let top =
        (if ltb (get_offering_cache s) last.id then last.id else get_offering_cache s) + 1 in
      rw (tick-cache last now s) (
        after-keeps v (FallsIn top) (check_offering v (get_offering_cache s) last.id s) _
          (check_offering-FallsIn (get_offering_cache s) last.id s f)
          (λ s1 k.
            after-keeps v (FallsIn top)
              (check_bid v (get_bid_cache s) last.id last.bids (count_tick s1)) _
              (check_bid-FallsIn top (get_bid_cache s) last.id last.bids (count_tick s1) k)
              (λ s3 l.
                check_ending-FallsIn top (get_ending_soon_cache s) last.id last.end_time now s3 l)))

-- If the ids of the offerings tweeted so far fall, read from the newest on, and none is above the
-- cached id, then that holds after any sequence of ticks, whatever the subgraph answers and
-- wherever an exception ends a tick: no offering is tweeted twice, and none after a later one.
pub run-FallsIn :
    (v : Services) (ticks : List (OfferingBids × ℕ)) (s : BotState)
    → Falls (get_offering_cache s + 1) (offering_tweets s.posts)
    → Falls (get_offering_cache (run v ticks s) + 1) (offering_tweets (run v ticks s).posts)
unfolding run
run-FallsIn v [] s f = f
run-FallsIn v ((last, now) ∷ ticks) s f =
    run-FallsIn v ticks (process_offering_tick v last now s).0 (tick-FallsIn v last now s f)
