-- ===== src/Bots/Ticks.antt =====
-- What a tick does to the caches: a second one after it posts nothing.
use theword_monorepo.Prelude.{
  ℕ, ◌+◌, ◌≡◌, refl, String, true, false, some, List, [], ◌∷◌, ltb, str_eq, ◌&&◌, ◌*◌,
  if◌then◌else◌, inl, inr, Bool-cases, ◌∙◌,
}
use theword_monorepo.Bots.{
  Bid, OfferingBids, Post, BotState, Services, Outcome, after, get_offering_cache,
  get_ending_soon_cache, get_bid_cache, increment_counter, tweet_offering, count_update,
  handle_new_offering, handle_new_bid, handle_ending_soon, check_offering, check_bid, check_ending,
}
use theword_monorepo.Bots.Handlers.{
  Allows, also-keeps, tweet-keeps, with_png-keeps, handle_new_bid-keeps, handle_ending_soon-keeps,
  discord_new_offering-keeps,
}

-- The caches that a check reads.
pub record SameCaches (s t : BotState) : Type 0 where
  pub offering : t.offering_cache ≡ s.offering_cache
  pub bid : t.bid_cache ≡ s.bid_cache
  pub ending : t.ending_soon_cache ≡ s.ending_soon_cache

abbrev same_caches : {s : BotState} → SameCaches s s
same_caches = record { offering = refl; bid = refl; ending = refl }

abbrev SameCaches-posted : (v : Services) (s : BotState) (p : Post) → Allows v (SameCaches s) p
SameCaches-posted v s p t h = (
  record { offering = h.offering; bid = h.bid; ending = h.ending },
  λ id. record { offering = h.offering; bid = h.bid; ending = h.ending },
)

module _ (v : Services) where
  handle_new_offering-caches : (id : ℕ) (s : BotState) → SameCaches s (handle_new_offering v id s).0
  unfolding handle_new_offering
  handle_new_offering-caches id s =
      let posted = SameCaches-posted v s in
      also-keeps v (SameCaches s) v.discord_enabled _ _
        (λ t k. discord_new_offering-keeps v (SameCaches s) id t (λ c. posted _) k)
        (also-keeps v (SameCaches s) v.twitter_enabled _ (s, true)
          (λ t k.
            with_png-keeps v (SameCaches s) id _ t
              (tweet-keeps v (SameCaches s) (tweet_offering id) t (posted _) k) k)
          same_caches)

  handle_new_bid-caches :
      (id : ℕ) (bid : Bid) (s : BotState) → SameCaches s (handle_new_bid v id bid s).0
  handle_new_bid-caches id bid s =
      handle_new_bid-keeps v (SameCaches s) id bid s (λ to. SameCaches-posted v s _)
        (λ c. SameCaches-posted v s _) same_caches

  handle_ending_soon-caches : (s : BotState) → SameCaches s (handle_ending_soon v s).0
  handle_ending_soon-caches s =
      handle_ending_soon-keeps v (SameCaches s) s (λ to. SameCaches-posted v s _) same_caches

  counted-caches :
      (o : Outcome)
      → ((after o count_update).0.offering_cache ≡ o.0.offering_cache)
        × ((after o count_update).0.bid_cache ≡ o.0.bid_cache)
        × ((after o count_update).0.ending_soon_cache ≡ o.0.ending_soon_cache)
  counted-caches (s, true) = (refl, refl, refl)
  counted-caches (s, false) = (refl, refl, refl)

  -- What the check for an offering leaves in the cache.
  pub check_offering-cache :
      (cached last : ℕ) (s : BotState)
      → (check_offering v cached last s).0.offering_cache
        ≡ (if ltb cached last then some last else s.offering_cache)
  unfolding check_offering
  check_offering-cache cached last s = elim (Bool-cases (ltb cached last)) [
    | inl h ↦
        let start = record (increment_counter "bots_offerings_discovered" s) {
          offering_cache = some last;
        } in
        let k = handle_new_offering-caches last start in
        let c = counted-caches (handle_new_offering v last start) in rw h (c.0 ∙ k.offering)
    | inr h ↦ rw h refl
  ]

  pub check_bid-others :
      (cached : String) (last : ℕ) (bids : List Bid) (s : BotState)
      → ((check_bid v cached last bids s).0.offering_cache ≡ s.offering_cache)
        × ((check_bid v cached last bids s).0.ending_soon_cache ≡ s.ending_soon_cache)
  unfolding check_bid
  check_bid-others cached last [] s = (refl, refl)
  check_bid-others cached last (bid ∷ bids) s = elim (Bool-cases (str_eq cached bid.id)) [
    | inl h ↦ rw h (refl, refl)
    | inr h ↦
        let k = handle_new_bid-caches last bid (record s { bid_cache = some bid.id }) in
        rw h (k.offering, k.ending)
  ]

  pub check_ending-others :
      (cached last end_time now : ℕ) (s : BotState)
      → ((check_ending v cached last end_time now s).0.offering_cache ≡ s.offering_cache)
        × ((check_ending v cached last end_time now s).0.bid_cache ≡ s.bid_cache)
  unfolding check_ending
  check_ending-others cached last end_time now s =
      let k = handle_ending_soon-caches (record s { ending_soon_cache = some last }) in
      elim (Bool-cases (ltb end_time (now + 20 * 60) && ltb cached last)) [
        | inl h ↦ rw h (k.offering, k.bid)
        | inr h ↦ rw h (refl, refl)
      ]

  -- Nothing is new to the caches.
  abbrev IsSettled : OfferingBids → ℕ → BotState → Type 0
  IsSettled last now s =
      (ltb (get_offering_cache s) last.id ≡ false)
      × (((w : Services) (u : BotState)
            → check_bid w (get_bid_cache s) last.id last.bids u ≡ (u, true))
          × ((ltb last.end_time (now + 20 * 60) && ltb (get_ending_soon_cache s) last.id) ≡ false))
