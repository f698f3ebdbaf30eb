-- ===== src/Bots/Handlers.antt =====
-- What every state that the handlers pass through has in common.
use theword_monorepo.Prelude.{
  ℕ, String, Bool, true, false, some, List, [], ◌∷◌, str_eq, if◌then◌else◌, inl, inr, Option-cases,
}
use theword_monorepo.Bots.{
  Bid, Post, reply_bid, reply_ending, send_offering, send_bid, BotState, refused, lost, answered,
  Services, Outcome, after, also, tweet, reply, with_png, send_one, send_all, discord_new_bid,
  handle_new_bid, handle_ending_soon,
}

-- A property of states that a post and the id of a tweet keep.
module _ (v : Services) (P : BotState → Type 0) where
  abbrev pub Allows : Post → Type 0
  Allows p =
      (s : BotState)
      → P s
      → P (record s { posts = p ∷ s.posts })
        × ((id : String) → P (record s { posts = p ∷ s.posts; reply_tweet_id = some id }))

  pub also-keeps :
      (on : Bool) (handler : BotState → Outcome) (o : Outcome)
      → ((s : BotState) → P s → P (handler s).0)
      → P o.0
      → P (also on handler o).0
  also-keeps true handler (s, ok) h k = h s k
  also-keeps false handler (s, ok) h k = k

  pub after-keeps :
      (o : Outcome) (rest : BotState → Outcome)
      → P o.0
      → ((s : BotState) → P s → P (rest s).0)
      → P (after o rest).0
  after-keeps (s, true) rest h k = k s h
  after-keeps (s, false) rest h k = h

  pub if-keeps : (b : Bool) (o u : Outcome) → P o.0 → P u.0 → P (if b then o else u).0
  if-keeps true o u h k = h
  if-keeps false o u h k = k

  pub tweet-keeps : (p : Post) (s : BotState) → Allows p → P s → P (tweet v p s).0
  unfolding tweet
  tweet-keeps p s a h =
      elim (v.post_tweet (p ∷ s.posts))
        as (λ o.
          P
            (elim o as (λ x. Outcome) [
              | refused ↦ (s, false)
              | lost ↦ (record s { posts = p ∷ s.posts }, false)
              | answered id ↦ (record s { posts = p ∷ s.posts; reply_tweet_id = some id }, true)
            ]).0) [ refused ↦ h | lost ↦ (a s h).0 | answered id ↦ (a s h).1 id ]

  pub reply-keeps :
      (post : String → Post) (s : BotState)
      → ((to : String) → Allows (post to))
      → P s
      → P (reply v post s).0
  unfolding reply
  reply-keeps post s a h = elim (Option-cases s.reply_tweet_id) [
    | inl e ↦ rw (e, reply) h
    | inr (id, e) ↦
        rw (e, reply)
          (if-keeps (str_eq id "") (s, true) (tweet v (post id) s) h
            (tweet-keeps (post id) s (a id) h))
  ]

  pub with_png-keeps :
      (id : ℕ) (send : BotState → Outcome) (s : BotState)
      → P (send s).0
      → P s
      → P (with_png v id send s).0
  unfolding with_png
  with_png-keeps id send s k h = elim (Option-cases (v.png id)) [
    | inl e ↦ rw (e, with_png) h
    | inr (there, e) ↦ rw (e, with_png) (if-keeps there (send s) (s, true) k h)
  ]

  pub send_all-keeps :
      (clients : List String) (post : String → Post) (s : BotState)
      → ((c : String) → Allows (post c))
      → P s
      → P (send_all v clients post s).0
  unfolding send_all send_one
  send_all-keeps [] post s a h = h
  send_all-keeps (c ∷ clients) post s a h =
      also-keeps true (send_all v clients post) (send_one v (post c) s)
        (λ t k. send_all-keeps clients post t a k)
        (if-keeps (v.takes_message (post c ∷ s.posts)) (record s { posts = post c ∷ s.posts }, true)
          (s, false) (a c s h).0 h)

  pub handle_new_bid-keeps :
      (id : ℕ) (bid : Bid) (s : BotState)
      → ((to : String) → Allows (reply_bid to id bid))
      → ((c : String) → Allows (send_bid c id bid))
      → P s
      → P (handle_new_bid v id bid s).0
  unfolding handle_new_bid discord_new_bid
  handle_new_bid-keeps id bid s a b h =
      also-keeps v.discord_enabled (discord_new_bid v id bid) _
        (λ t k.
          if-keeps (v.format_bid id bid) _ (t, false) (send_all-keeps v.discord_clients _ t b k) k)
        (also-keeps v.twitter_enabled _ (s, true) (λ t k. reply-keeps _ t a k) h)

  pub handle_ending_soon-keeps :
      (s : BotState)
      → ((to : String) → Allows (reply_ending to))
      → P s
      → P (handle_ending_soon v s).0
  unfolding handle_ending_soon
  handle_ending_soon-keeps s a h =
      also-keeps v.twitter_enabled _ (s, true) (λ t k. reply-keeps reply_ending t a k) h

  pub discord_new_offering-keeps :
      (id : ℕ) (s : BotState)
      → ((c : String) → Allows (send_offering c id))
      → P s
      → P (with_png v id (send_all v v.discord_clients (λ c. send_offering c id)) s).0
  discord_new_offering-keeps id s a h =
      with_png-keeps id _ s (send_all-keeps v.discord_clients (λ c. send_offering c id) s a h) h
