-- ===== src/Webapp/Display/Sorted.antt =====
-- The order of the bids that are shown.
use mathlib.Core.List.{Perm}
use mathlib.Core.List.Perm
use theword_monorepo.Prelude.{ℕ, ◌≤◌, List, [], ◌∷◌, arith, ltb, inl, inr, Bool-cases, All}
use theword_monorepo.Webapp.Offering.{BidEvent}
use theword_monorepo.Webapp.Display.{insert_bid, deserialize_bids, deserialize_bid}

-- Every bid is at least as late as those after it.
unfoldable pub IsLatestFirst : List BidEvent → Type 0
IsLatestFirst [] = Unit
IsLatestFirst (b ∷ bids) = All (λ c. c.timestamp ≤ b.timestamp) bids × IsLatestFirst bids

All-weaken :
    (m n : ℕ) (bids : List BidEvent)
    → m ≤ n
    → All (λ c. c.timestamp ≤ m) bids
    → All (λ c. c.timestamp ≤ n) bids
All-weaken m n [] h a = tt
All-weaken m n (c ∷ bids) h (p, a) = (omega arith, All-weaken m n bids h a)

insert_bid-All :
    (n : ℕ) (b : BidEvent) (bids : List BidEvent)
    → b.timestamp ≤ n
    → All (λ c. c.timestamp ≤ n) bids
    → All (λ c. c.timestamp ≤ n) (insert_bid b bids)
unfolding insert_bid
insert_bid-All n b [] h a = (h, tt)
insert_bid-All n b (c ∷ bids) h (p, a) = elim (Bool-cases (ltb b.timestamp c.timestamp)) [
  | inl less ↦ rw (less, insert_bid) (p, insert_bid-All n b bids h a)
  | inr more ↦ rw (more, insert_bid) (h, (p, a))
]

insert_bid-IsLatestFirst :
    (b : BidEvent) (bids : List BidEvent) → IsLatestFirst bids → IsLatestFirst (insert_bid b bids)
unfolding insert_bid IsLatestFirst
insert_bid-IsLatestFirst b [] s = (tt, tt)
insert_bid-IsLatestFirst b (c ∷ bids) (a, s) = elim (Bool-cases (ltb b.timestamp c.timestamp)) [
  | inl less ↦
      rw (less, insert_bid)
        (insert_bid-All c.timestamp b bids (ground arith) a, insert_bid-IsLatestFirst b bids s)
  | inr more ↦
      let le : c.timestamp ≤ b.timestamp = ground arith in
      rw (more, insert_bid) ((le, All-weaken c.timestamp b.timestamp bids le a), (a, s))
]

insert_bid-Perm : (b : BidEvent) (bids : List BidEvent) → Perm (insert_bid b bids) (b ∷ bids)
unfolding insert_bid
insert_bid-Perm b [] = Perm.refl _
insert_bid-Perm b (c ∷ bids) = elim (Bool-cases (ltb b.timestamp c.timestamp)) [
  | inl less ↦
      rw (less, insert_bid) (Perm.trans (Perm.cons c (insert_bid-Perm b bids)) (Perm.swap b c bids))
  | inr more ↦ rw (more, insert_bid) (Perm.refl _)
]

deserialize_bids-IsLatestFirst : (bids : List BidEvent) → IsLatestFirst (deserialize_bids bids)
unfolding deserialize_bids IsLatestFirst
deserialize_bids-IsLatestFirst [] = tt
deserialize_bids-IsLatestFirst (b ∷ bids) =
    insert_bid-IsLatestFirst (deserialize_bid b) (deserialize_bids bids)
      (deserialize_bids-IsLatestFirst bids)

deserialize_bids-Perm : (bids : List BidEvent) → Perm (deserialize_bids bids) bids
unfolding deserialize_bids
deserialize_bids-Perm [] = Perm.refl _
deserialize_bids-Perm (b ∷ bids) =
    Perm.trans (insert_bid-Perm (deserialize_bid b) (deserialize_bids bids))
      (Perm.cons b (deserialize_bids-Perm bids))

-- The bids that are shown are those that are stored, in an order in which none comes before a later
-- one.
pub deserialize_bids-sorted :
    (bids : List BidEvent)
    → Perm (deserialize_bids bids) bids × IsLatestFirst (deserialize_bids bids)
deserialize_bids-sorted bids = (deserialize_bids-Perm bids, deserialize_bids-IsLatestFirst bids)
