-- ===== src/Webapp/Offering/Bids.antt =====
-- The bids of the offering slice: no transaction twice, and the highest bid leads.
use theword_monorepo.Prelude.{
  ◌≤◌, ◌≡◌, refl, false, some, List, [], ◌∷◌, arith, ltb, ◌∙◌, ◌==◌, if◌then◌else◌, inl, inr, ◌⊎◌,
  Bool-cases, Option-cases, All, ==_iff,
}
use theword_monorepo.Webapp.Offering.{
  Offering, BidEvent, OfferingState, OfferingSettledEvent, OfferingExtendedEvent, max_bid,
  contains_bid, append_bid, set_active_offering, set_full_offering, set_offering_settled,
  set_offering_extended, Action, set_active, set_full, append, settle, extend, reduce, run,
}

-- No two bids have the same transaction.
unfoldable pub IsUnique : List BidEvent → Type 0
IsUnique [] = Unit
IsUnique (b ∷ bids) = (contains_bid bids b ≡ false) × IsUnique bids

append_bid-IsUnique :
    (e : BidEvent) (s : OfferingState) → IsUnique s.bids → IsUnique (append_bid e s).bids
unfolding append_bid IsUnique contains_bid
append_bid-IsUnique e s u = elim (Option-cases s.active_offering) [
  | inl h ↦ rw h u
  | inr (o, h) ↦ rw h (elim (Bool-cases (o.theword_id == e.theword_id)) [
    | inr other ↦ rw other u
    | inl same ↦ rw same (elim (Bool-cases (contains_bid s.bids e)) [
      | inl known ↦ rw known u
      | inr fresh ↦ rw fresh (fresh, u)
    ])
  ])
]

set_offering_settled-bids :
    (e : OfferingSettledEvent) (s : OfferingState) → (set_offering_settled e s).bids ≡ s.bids
unfolding set_offering_settled
set_offering_settled-bids e s = ground arith

set_offering_extended-bids :
    (e : OfferingExtendedEvent) (s : OfferingState) → (set_offering_extended e s).bids ≡ s.bids
unfolding set_offering_extended
set_offering_extended-bids e s = ground arith

reduce-IsUnique : (a : Action) (s : OfferingState) → IsUnique s.bids → IsUnique (reduce a s).bids
unfolding reduce set_active_offering set_full_offering IsUnique
reduce-IsUnique (set_active e) s u = tt
reduce-IsUnique (set_full o) s u = u
reduce-IsUnique (append e) s u = append_bid-IsUnique e s u
reduce-IsUnique (settle e) s u = rw (set_offering_settled-bids e s) u
reduce-IsUnique (extend e) s u = rw (set_offering_extended-bids e s) u

-- If the bids of a state come from different transactions, so do the bids after any sequence of
-- actions.
pub run-IsUnique :
    (actions : List Action) (s : OfferingState) → IsUnique s.bids → IsUnique (run actions s).bids
unfolding run
run-IsUnique [] s u = u
run-IsUnique (a ∷ actions) s u = run-IsUnique actions (reduce a s) (reduce-IsUnique a s u)

-- `b` is one of the bids.
unfoldable pub Among : BidEvent → List BidEvent → Type 0
Among b [] = ⊥
Among b (c ∷ bids) = (b ≡ c) ⊎ Among b bids

abbrev better : BidEvent → BidEvent → BidEvent
better prev current = if ltb current.value prev.value then prev else current

better-bounds :
    (prev current : BidEvent)
    → prev.value ≤ (better prev current).value × current.value ≤ (better prev current).value
better-bounds prev current = (ground arith, ground arith)

better-cases :
    (prev current : BidEvent) → (better prev current ≡ prev) ⊎ (better prev current ≡ current)
better-cases prev current = elim (Bool-cases (ltb current.value prev.value)) [
  | inl less ↦ inl (rw less refl)
  | inr more ↦ inr (rw more refl)
]

pub max_bid-bounds :
    (prev : BidEvent) (bids : List BidEvent)
    → prev.value ≤ (max_bid prev bids).value × All (λ b. b.value ≤ (max_bid prev bids).value) bids
unfolding max_bid
max_bid-bounds prev [] = (omega arith, tt)
max_bid-bounds prev (c ∷ bids) =
    let (le, rest) = max_bid-bounds (better prev c) bids in
    let (p, q) = better-bounds prev c in (omega (arith, p, le), (omega (arith, q, le), rest))

max_bid-Among : (prev : BidEvent) (bids : List BidEvent) → Among (max_bid prev bids) (prev ∷ bids)
unfolding max_bid Among
max_bid-Among prev [] = inl refl
max_bid-Among prev (c ∷ bids) = elim (max_bid-Among (better prev c) bids) [
  | inl e ↦ elim (better-cases prev c) [ inl f ↦ inl (e ∙ f) | inr f ↦ inr (inl (e ∙ f)) ]
  | inr t ↦ inr (inr t)
]

-- The offering shows the amount and the bidder of one of the bids, and no bid is higher.
unfoldable pub Leads : Offering → List BidEvent → Type 0
Leads o bids =
    (winner : BidEvent) × (Among winner bids
      × ((o.amount ≡ winner.value × o.bidder ≡ winner.sender)
          × All (λ b. b.value ≤ winner.value) bids))

-- A bid on the active offering that is not known yet is put first, and the active offering, which
-- keeps its id and its end, then shows the amount and the bidder of a highest bid of all.
pub append_bid-Leads :
    (e : BidEvent) (s : OfferingState) (o : Offering)
    → s.active_offering ≡ some o
    → o.theword_id ≡ e.theword_id
    → contains_bid s.bids e ≡ false
    → (o' : Offering) × (((append_bid e s).active_offering ≡ some o'
          × (append_bid e s).bids ≡ e ∷ s.bids)
        × ((o'.theword_id ≡ o.theword_id × o'.end_time ≡ o.end_time)
            × Leads o' (append_bid e s).bids))
unfolding append_bid Leads
append_bid-Leads e s o h same fresh =
    rw (h, (==_iff o.theword_id e.theword_id).1 same, fresh)
      (
        _,
        (
          (refl, refl),
          (
            (refl, refl),
            (max_bid e s.bids, (max_bid-Among e s.bids, ((refl, refl), max_bid-bounds e s.bids))),
          ),
        ),
      )
