-- ===== src/Webapp/Offering/Own.antt =====
-- The bids of the offering slice are bids on its active offering.
use mathlib.Core.Path.{subst}
use theword_monorepo.Prelude.{
  ℕ, ◌≡◌, refl, ap, Option, none, some, List, [], ◌∷◌, arith, ◌==◌, inl, inr, Bool-cases,
  Option-cases, All, ==_iff,
}
use theword_monorepo.Webapp.Offering.{
  BidEvent, OfferingState, OfferingSettledEvent, OfferingExtendedEvent, append_bid, contains_bid,
  set_active_offering, set_offering_settled, set_offering_extended, Action, set_active, set_full,
  append, settle, extend, reduce, run,
}

-- The id of the active offering.
abbrev pub active_id : OfferingState → Option ℕ
active_id s = elim s.active_offering [ none ↦ none | some o ↦ some o.theword_id ]

abbrev pub IsOwn : OfferingState → Type 0
IsOwn s = All (λ b. active_id s ≡ some b.theword_id) s.bids

-- The action does not put another offering in the place of the active one.
abbrev pub IsEvent : Action → Type 0
IsEvent (set_full o) = ⊥
IsEvent _ = Unit

append_bid-IsOwn : (e : BidEvent) (s : OfferingState) → IsOwn s → IsOwn (append_bid e s)
unfolding append_bid
append_bid-IsOwn e s u = elim (Option-cases s.active_offering) [
  | inl h ↦ rw (h, append_bid) u
  | inr (o, h) ↦ elim (Bool-cases (o.theword_id == e.theword_id)) [
    | inr other ↦ rw (h, other, append_bid) u
    | inl same ↦ elim (Bool-cases (contains_bid s.bids e)) [
      | inl known ↦ rw (h, same, known, append_bid) u
      | inr fresh ↦
          let key : active_id s ≡ some o.theword_id = rw h refl in
          let own = subst (λ i. All (λ b. i ≡ some b.theword_id) s.bids) key u in
          rw (h, same, fresh, append_bid) (ap some ((==_iff o.theword_id e.theword_id).0 same), own)
    ]
  ]
]

pub settled_id :
    (e : OfferingSettledEvent) (s : OfferingState)
    → (active_id (set_offering_settled e s) ≡ active_id s)
      × ((set_offering_settled e s).bids ≡ s.bids)
unfolding set_offering_settled
settled_id e s = (ground arith, ground arith)

pub extended_id :
    (e : OfferingExtendedEvent) (s : OfferingState)
    → (active_id (set_offering_extended e s) ≡ active_id s)
      × ((set_offering_extended e s).bids ≡ s.bids)
unfolding set_offering_extended
extended_id e s = (ground arith, ground arith)

reduce-IsOwn : (a : Action) (s : OfferingState) → IsEvent a → IsOwn s → IsOwn (reduce a s)
unfolding reduce set_active_offering
reduce-IsOwn (set_active e) s p u = tt
reduce-IsOwn (set_full o) s p u = absurd p
reduce-IsOwn (append e) s p u = append_bid-IsOwn e s u
reduce-IsOwn (settle e) s p u = rw ((settled_id e s).0, (settled_id e s).1) u
reduce-IsOwn (extend e) s p u = rw ((extended_id e s).0, (extended_id e s).1) u

-- If the bids of a state are bids on its active offering, they still are after any sequence of
-- actions other than setFullOffering.
pub run-IsOwn :
    (actions : List Action) (s : OfferingState)
    → All IsEvent actions
    → IsOwn s
    → IsOwn (run actions s)
unfolding run
run-IsOwn [] s p u = u
run-IsOwn (a ∷ actions) s (p, ps) u = run-IsOwn actions (reduce a s) ps (reduce-IsOwn a s p u)
