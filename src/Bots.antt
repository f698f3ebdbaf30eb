-- ===== src/Bots.antt =====
-- packages/theword-bots/src: index.ts, cache.ts and handlers/*.ts, the announcements of offerings and
-- bids. A post stands without its wording, and the newest post comes first. A call of a service that is
-- rejected ends the tick; Redis answers every call.
mod Handlers
pub mod Ticks
pub mod Genesis
pub mod Order
mod Tests
use theword_monorepo.Prelude.{
  ℕ, ◌+◌, ◌*◌, String, Bool, true, false, ◌&&◌, Option, none, some, List, [], ◌∷◌, ltb, str_eq,
  if◌then◌else◌,
}

pub record Bid : Type 0 where
  pub id : String
  pub amount : String
  pub bidder : String

pub record OfferingBids : Type 0 where
  pub id : ℕ
  pub end_time : ℕ
  pub bids : List Bid

pub data Post : Type 0 where
  tweet_offering : ℕ → Post
  reply_bid : String → ℕ → Bid → Post
  reply_ending : String → Post
  send_offering : String → ℕ → Post
  send_bid : String → ℕ → Bid → Post

-- The keys of the Redis database, the counters that were incremented, and what was posted.
pub record BotState : Type 0 where
  pub offering_cache : Option ℕ
  pub bid_cache : Option String
  pub reply_tweet_id : Option String
  pub ending_soon_cache : Option ℕ
  pub counters : List String
  pub posts : List Post

abbrev pub cold : BotState
cold = record {
  offering_cache = none;
  bid_cache = none;
  reply_tweet_id = none;
  ending_soon_cache = none;
  counters = [];
  posts = [];
}

abbrev pub get_offering_cache : BotState → ℕ
get_offering_cache s = elim s.offering_cache [ none ↦ 0 | some id ↦ id ]

abbrev pub get_ending_soon_cache : BotState → ℕ
get_ending_soon_cache s = elim s.ending_soon_cache [ none ↦ 0 | some id ↦ id ]

abbrev pub get_bid_cache : BotState → String
get_bid_cache s = elim s.bid_cache [ none ↦ "" | some id ↦ id ]

abbrev pub increment_counter : String → BotState → BotState
increment_counter name s = record s { counters = name ∷ s.counters }

-- What came of a tweet or a reply: nothing was posted, it was posted and the answer was lost, or it has
-- an `id_str`.
pub data Sent : Type 0 where
  refused : Sent
  lost : Sent
  answered : String → Sent

-- The configuration, and what the services answer: whether the image of a token can be had, or an
-- exception; what comes of a tweet or a reply, its text and its picture included, given all posts;
-- whether the text of a bid can be made, which asks for a name; and whether a message is taken.
pub record Services : Type 0 where
  pub twitter_enabled : Bool
  pub discord_enabled : Bool
  pub discord_clients : List String
  pub png : ℕ → Option Bool
  pub post_tweet : List Post → Sent
  pub format_bid : ℕ → Bid → Bool
  pub takes_message : List Post → Bool

-- A state, and whether no exception was raised.
abbrev pub Outcome : Type 0
Outcome = BotState × Bool

-- `await` and what follows it, unless there was an exception.
abbrev pub after : Outcome → (BotState → Outcome) → Outcome
after (s, true) rest = rest s
after (s, false) rest = (s, false)

-- The next handler of `Promise.all`, which runs even if another one fails.
abbrev pub also : Bool → (BotState → Outcome) → Outcome → Outcome
also true handler (s, ok) = let (t, done) = handler s in (t, ok && done)
also false handler (s, ok) = (s, ok)

abbrev pub count_update : BotState → Outcome
count_update s = (increment_counter "bots_offering_cache_updates" s, true)

abbrev pub count_tick : BotState → BotState
count_tick s = increment_counter "bots_offering_process_last_offering" s

module _ (v : Services) where
  -- A tweet, whose id becomes the one to reply to.
  unfoldable pub tweet : Post → BotState → Outcome
  tweet p s = elim (v.post_tweet (p ∷ s.posts)) [
    | refused ↦ (s, false)
    | lost ↦ (record s { posts = p ∷ s.posts }, false)
    | answered id ↦ (record s { posts = p ∷ s.posts; reply_tweet_id = some id }, true)
  ]

  -- A reply to the last tweet, if there is one; an empty id counts as none.
  unfoldable pub reply : (String → Post) → BotState → Outcome
  reply post s = elim s.reply_tweet_id [
    | none ↦ (s, true)
    | some id ↦ if str_eq id "" then (s, true) else tweet (post id) s
  ]

  -- What is done with the image of a token.
  unfoldable pub with_png : ℕ → (BotState → Outcome) → BotState → Outcome
  with_png id send s = elim (v.png id) [
    | none ↦ (s, false)
    | some there ↦ if there then send s else (s, true)
  ]

  abbrev pub twitter_new_offering : ℕ → BotState → Outcome
  twitter_new_offering id s = with_png id (tweet (tweet_offering id)) s

  abbrev pub twitter_new_bid : ℕ → Bid → BotState → Outcome
  twitter_new_bid id bid s = reply (λ to. reply_bid to id bid) s

  abbrev pub twitter_ending_soon : BotState → Outcome
  twitter_ending_soon s = reply reply_ending s

  unfoldable pub send_one : Post → BotState → Outcome
  send_one p s =
      if v.takes_message (p ∷ s.posts) then (record s { posts = p ∷ s.posts }, true) else (s, false)

  -- Every client gets its message, even if another one fails.
  unfoldable pub send_all : List String → (String → Post) → BotState → Outcome
  send_all [] post s = (s, true)
  send_all (c ∷ clients) post s = also true (send_all clients post) (send_one (post c) s)

  abbrev pub discord_new_offering : ℕ → BotState → Outcome
  discord_new_offering id s = with_png id (send_all v.discord_clients (λ c. send_offering c id)) s

  unfoldable pub discord_new_bid : ℕ → Bid → BotState → Outcome
  discord_new_bid id bid s =
      if v.format_bid id bid
      then send_all v.discord_clients (λ c. send_bid c id bid) s
      else (s, false)

  -- The configured handlers, Twitter's first.
  unfoldable pub handle_new_offering : ℕ → BotState → Outcome
  handle_new_offering id s =
      also v.discord_enabled (discord_new_offering id)
        (also v.twitter_enabled (twitter_new_offering id) (s, true))

  unfoldable pub handle_new_bid : ℕ → Bid → BotState → Outcome
  handle_new_bid id bid s =
      also v.discord_enabled (discord_new_bid id bid)
        (also v.twitter_enabled (twitter_new_bid id bid) (s, true))

  unfoldable pub handle_ending_soon : BotState → Outcome
  handle_ending_soon s = also v.twitter_enabled twitter_ending_soon (s, true)

  -- The check for a new offering, with what was cached.
  unfoldable pub check_offering : ℕ → ℕ → BotState → Outcome
  check_offering cached last s =
      if ltb cached last
      then after
          (handle_new_offering last (record (increment_counter "bots_offerings_discovered" s) {
            offering_cache = some last;
          }))
          count_update
      else (s, true)

  -- The check for a new bid, with what was cached.
  unfoldable pub check_bid : String → ℕ → List Bid → BotState → Outcome
  check_bid cached last [] s = (s, true)
  check_bid cached last (bid ∷ bids) s =
      if str_eq cached bid.id
      then (s, true)
      else handle_new_bid last bid (record s { bid_cache = some bid.id })

  -- The check for an offering that ends soon, with what was cached: `end_time - now < 20 * 60`.
  unfoldable pub check_ending : ℕ → ℕ → ℕ → ℕ → BotState → Outcome
  check_ending cached last end_time now s =
      if ltb end_time (now + 20 * 60) && ltb cached last
      then handle_ending_soon (record s { ending_soon_cache = some last })
      else (s, true)

  -- The state after a tick, and whether it came to its end. A tick that gets no answer from the subgraph
  -- does nothing.
  unfoldable pub process_offering_tick : OfferingBids → ℕ → BotState → Outcome
  process_offering_tick last now s = after (check_offering (get_offering_cache s) last.id s) (λ s1.
      after (check_bid (get_bid_cache s) last.id last.bids (count_tick s1))
        (λ s3. check_ending (get_ending_soon_cache s) last.id last.end_time now s3))

  -- A sequence of ticks, each with the answer of the subgraph and the time. The next tick comes whether
  -- or not one was ended by an exception.
  unfoldable pub run : List (OfferingBids × ℕ) → BotState → BotState
  run [] s = s
  run ((last, now) ∷ ticks) s = run ticks (process_offering_tick last now s).0
