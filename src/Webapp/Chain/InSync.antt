-- ===== src/Webapp/Chain/InSync.antt =====
-- The slices agree on the last offering, and the one on display is not after it.
use theword_monorepo.Prelude.{
  ℕ, ◌≡◌, refl, sym, ap, ◌∙◌, Bool, true, false, ◌||◌, Option, none, some, List, [], ◌∷◌, arith,
  ◌==◌, inl, inr, Bool-cases, Option-cases,
}
use theword_monorepo.Prelude.Int.{ℤ, pos, negsuc}
use mathlib.Core.Option.{some-injective}
use theword_monorepo.Webapp.Display.{is_safe, from_number, Displayed, on_display_offering}
use theword_monorepo.Webapp.Offering.{
  Offering, BidEvent, OfferingState, append_bid, set_full_offering, set_active_offering,
}
use theword_monorepo.Webapp.Offering.Own.{active_id, settled_id, extended_id}
use theword_monorepo.Webapp.OnDisplay.{
  JsNumber, whole, fraction, nan, infinite, minus_infinite, next_ℤ, prev_ℤ, move_by, is_falsy,
  is_number, OnDisplayOfferingState, set_last, set_on_display, set_prev, set_next,
}
use theword_monorepo.Webapp.Chain.{
  RootState, initial_root, process_bid_filter, process_offering_created, process_offering_extended,
  process_offering_settled, load_bids, load_state, add_past_offerings, displayed, is_after,
  is_negative, truthy_last, show, page_effect_from, page_effect, with_arrows, min_number,
  bid_history_button_click_handler, prev_offering_handler, next_offering_handler, Step, bid,
  created, extended, settled, queried, opened, went_back, went_on, asked_for_bids, step, run,
  PushedPath, theword_path, offering_path,
}

-- The number on display, if any, is not after the last id.
abbrev pub Range : Option ℕ → Option JsNumber → Type 0
Range last none = Unit
Range none (some n) = ⊥
Range (some l) (some n) = is_after n l ≡ false

abbrev pub IsInRange : OnDisplayOfferingState → Type 0
IsInRange d = Range d.last d.on_display

-- The id of the active offering is the last id, and the offering on display is not after it.
pub record IsInSync (s : RootState) : Type 0 where
  pub last : active_id s.offering ≡ s.display.last
  pub range : IsInRange s.display

append_bid_id : (e : BidEvent) (s : OfferingState) → active_id (append_bid e s) ≡ active_id s
unfolding append_bid
append_bid_id e s = ground arith

set_prev_last : (d : OnDisplayOfferingState) → (set_prev d).last ≡ d.last
unfolding set_prev
set_prev_last d = ground arith

set_next_last : (d : OnDisplayOfferingState) → (set_next d).last ≡ d.last
unfolding set_next
set_next_last d = ground arith

prev_not_after :
    (n : JsNumber) (l : ℕ) → is_after n l ≡ false → is_after (move_by prev_ℤ n) l ≡ false
prev_not_after (whole (pos n)) l h = ground arith
prev_not_after (whole (negsuc n)) l h = refl
prev_not_after (fraction (pos n)) l h = ground arith
prev_not_after (fraction (negsuc n)) l h = refl
prev_not_after nan l h = refl
prev_not_after infinite l h = h
prev_not_after minus_infinite l h = refl

set_prev-Range :
    (last : Option ℕ) (shown : Option JsNumber)
    → Range last shown
    → IsInRange (set_prev (record { last = last; on_display = shown }))
unfolding set_prev
set_prev-Range last none r = tt
set_prev-Range none (some n) r = absurd r
set_prev-Range (some l) (some n) r = elim (Bool-cases (is_falsy n)) [
  | inl zero ↦ rw (zero, set_prev) r
  | inr other ↦ rw (other, set_prev) (prev_not_after n l r)
]

-- A number that the page can show is whole.
next_not_after :
    (z : ℤ) (l : ℕ)
    → is_number l (whole z) ≡ false
    → is_after (whole z) l ≡ false
    → is_after (whole (next_ℤ z)) l ≡ false
next_not_after (pos n) l o h = ground arith
next_not_after (negsuc n) l o h = ground arith

set_next-Range :
    (last : Option ℕ) (z : ℤ)
    → Range last (some (whole z))
    → IsInRange (set_next (record { last = last; on_display = some (whole z) }))
unfolding set_next
set_next-Range none z r = absurd r
set_next-Range (some l) z r = elim (Bool-cases (is_number l (whole z))) [
  | inl same ↦ rw (same, set_next) r
  | inr other ↦ rw (other, set_next) (next_not_after z l other r)
]

set_next-none : (last : Option ℕ) → IsInRange (set_next (record { last = last; on_display = none }))
unfolding set_next
set_next-none last = tt

shown_whole :
    (n : JsNumber) (current : Option Offering) (past : List OfferingState) (o : Displayed)
    → on_display_offering (some n) current past ≡ some (some o)
    → (z : ℤ) × (n ≡ whole z)
unfolding on_display_offering from_number
shown_whole n none past o h = absurd (cc h)
shown_whole (whole z) (some current) past o h = (z, refl)
shown_whole (fraction z) (some current) past o h = absurd (cc h)
shown_whole nan (some current) past o h = absurd (cc h)
shown_whole infinite (some current) past o h = absurd (cc h)
shown_whole minus_infinite (some current) past o h = absurd (cc h)

-- A change of the display that keeps its last offering and its range.
display-IsInSync :
    (s : RootState) (d : OnDisplayOfferingState) (paths : _)
    → IsInSync s
    → d.last ≡ s.display.last
    → IsInRange d
    → IsInSync (record s { display = d; paths = paths })
display-IsInSync s d paths h e r = record { last = h.last ∙ sym e; range = r }

prev-IsInSync : (o : Displayed) (s : RootState) → IsInSync s → IsInSync (prev_offering_handler o s)
unfolding prev_offering_handler
prev-IsInSync o s h =
    let e = set_prev_last s.display in
    let r = set_prev-Range s.display.last s.display.on_display h.range in
    display-IsInSync s (set_prev s.display) _ h e r

next-Range :
    (s : RootState) (o : Displayed)
    → displayed s ≡ some (some o)
    → IsInSync s
    → IsInRange (set_next s.display)
next-Range s o e h = elim (Option-cases s.display.on_display) [
  | inl n ↦ rw n (set_next-none s.display.last)
  | inr (n, f) ↦
      let (z, w) = shown_whole n s.offering.active_offering s.past_offerings o (rw f at e) in
      let g : s.display.on_display ≡ some (whole z) = f ∙ ap some w in
      let r : Range s.display.last (some (whole z)) = (rw g at h.range) in
      rw g (set_next-Range s.display.last z r)
]

next-IsInSync :
    (o : Displayed) (s : RootState)
    → displayed s ≡ some (some o)
    → IsInSync s
    → IsInSync (next_offering_handler o s)
unfolding next_offering_handler
next-IsInSync o s shows h =
    display-IsInSync s (set_next s.display) _ h (set_next_last s.display) (next-Range s o shows h)

arrows-IsInSync :
    (handler : Displayed → RootState → RootState) (s : RootState)
    → ((o : Displayed) → displayed s ≡ some (some o) → IsInSync (handler o s))
    → IsInSync s
    → IsInSync (with_arrows handler s)
unfolding with_arrows
arrows-IsInSync handler s k h = elim (Option-cases (displayed s)) [
  | inl e ↦ rw (e, with_arrows) h
  | inr (none, e) ↦ rw (e, with_arrows) h
  | inr (some o, e) ↦ elim (Option-cases (truthy_last s)) [
    | inl n ↦ rw (e, n, with_arrows) h
    | inr (last, n) ↦ rw (e, n, with_arrows) (k o e)
  ]
]

-- Showing a number that is not after the last id.
show-IsInSync :
    (s : RootState) (last : ℕ) (n : JsNumber) (paths : List PushedPath)
    → IsInSync s
    → s.display.last ≡ some last
    → is_after n last ≡ false
    → IsInSync (record s {
      display = record { last = s.display.last; on_display = some n };
      paths = paths;
    })
show-IsInSync s last n paths h e le =
    let r : Range s.display.last (some n) = rw e le in record { last = h.last; range = r }

truthy_last-some :
    (s : RootState) (last : ℕ) → truthy_last s ≡ some last → s.display.last ≡ some last
truthy_last-some s last h = elim (Option-cases s.display.last) [
  | inl e ↦ absurd (let wrong : none ≡ some last = (rw e at h) in cc wrong)
  | inr (l, e) ↦ elim (Bool-cases (l == 0)) [
    | inl z ↦ absurd (let wrong : none ≡ some last = (rw (e, z) at h) in cc wrong)
    | inr z ↦ let same : some l ≡ some last = (rw (e, z) at h) in e ∙ same
  ]
]

page_from-IsInSync :
    (path : Option JsNumber) (last : ℕ) (o : Option Displayed) (s : RootState)
    → IsInSync s
    → s.display.last ≡ some last
    → IsInSync (page_effect_from path last o s)
unfolding page_effect_from set_on_display
page_from-IsInSync none last o s h e =
    show-IsInSync s last (whole (pos last)) s.paths h e (ground arith)
page_from-IsInSync (some n) last o s h e = elim (Bool-cases (is_after n last || is_negative n)) [
  | inl out ↦
      rw (out, page_effect_from)
        (show-IsInSync s last (whole (pos last)) (theword_path last ∷ s.paths) h e (ground arith))
  | inr within ↦ rw (within, page_effect_from) (inside o (or_false (is_after n last) _ within))
]
  where
    or_false : (a b : Bool) → (a || b) ≡ false → a ≡ false
    or_false true b q = q
    or_false false b q = refl

    inside :
        (o : Option Displayed)
        → is_after n last ≡ false
        → IsInSync (elim o [ none ↦ show n s | some d ↦ s ])
    inside none le = show-IsInSync s last n s.paths h e le
    inside (some d) le = h

page-IsInSync :
    (path : Option JsNumber) (s : RootState) → IsInSync s → IsInSync (page_effect path s)
unfolding page_effect
page-IsInSync path s h = elim (Option-cases (displayed s)) [
  | inl n ↦ rw (n, page_effect) h
  | inr (o, n) ↦ elim (Option-cases (truthy_last s)) [
    | inl z ↦ rw (n, z, page_effect) h
    | inr (last, z) ↦
        rw (n, z, page_effect) (page_from-IsInSync path last o s h (truthy_last-some s last z))
  ]
]

min_not_after : (n : JsNumber) (last : ℕ) → is_after (min_number n last) last ≡ false
min_not_after n last = elim (Bool-cases (is_after n last)) [
  | inl e ↦ rw e (ground arith)
  | inr e ↦ rw e e
]

from_number-some : (n : JsNumber) (z : ℤ) → from_number n ≡ some z → n ≡ whole z
unfolding from_number
from_number-some (whole y) z h = elim (Bool-cases (is_safe y)) [
  | inl e ↦ let same : some y ≡ some z = (rw e at h) in ap whole (some-injective y z same)
  | inr e ↦ absurd (let wrong : none ≡ some z = (rw e at h) in cc wrong)
]
from_number-some (fraction y) z h = absurd (cc h)
from_number-some nan z h = absurd (cc h)
from_number-some infinite z h = absurd (cc h)
from_number-some minus_infinite z h = absurd (cc h)

history-IsInSync :
    (path : JsNumber) (s : RootState)
    → IsInSync s
    → IsInSync (bid_history_button_click_handler path s)
unfolding bid_history_button_click_handler set_on_display
history-IsInSync path s h = elim (Option-cases (truthy_last s)) [
  | inl z ↦ rw (z, bid_history_button_click_handler) h
  | inr (last, z) ↦ elim (Option-cases (from_number (min_number path last))) [
    | inl e ↦ rw (z, e, bid_history_button_click_handler) h
    | inr (id, e) ↦
        let w = from_number-some (min_number path last) id e in
        let le : is_after (whole id) last ≡ false = (rw w at (min_not_after path last)) in
        rw (z, e, bid_history_button_click_handler)
          (show-IsInSync s last (whole id) (offering_path id ∷ s.paths) h
            (truthy_last-some s last z) le)
  ]
]

process_bid-IsInSync :
    (e : BidEvent) (s : RootState) → IsInSync s → IsInSync (process_bid_filter e s)
unfolding process_bid_filter
process_bid-IsInSync e s h = record { last = append_bid_id e s.offering ∙ h.last; range = h.range }

step-IsInSync : (x : Step) (s : RootState) → IsInSync s → IsInSync (step x s)
unfolding step process_offering_created process_offering_extended process_offering_settled
    add_past_offerings set_active_offering set_on_display set_last
step-IsInSync (bid e) s h = process_bid-IsInSync e s h
step-IsInSync (created id start_time end_time) s h = record { last = refl; range = ground arith }
step-IsInSync (extended e) s h = record {
  last = (extended_id e s.offering).0 ∙ h.last;
  range = h.range;
}
step-IsInSync (settled e) s h = record {
  last = (settled_id e s.offering).0 ∙ h.last;
  range = h.range;
}
step-IsInSync (queried offerings) s h = record { last = h.last; range = h.range }
step-IsInSync (opened path) s h = page-IsInSync path s h
step-IsInSync went_back s h = arrows-IsInSync prev_offering_handler s (λ o e. prev-IsInSync o s h) h
step-IsInSync went_on s h = arrows-IsInSync next_offering_handler s (λ o e. next-IsInSync o s e h) h
step-IsInSync (asked_for_bids path) s h = history-IsInSync path s h

run-IsInSync_from : (steps : List Step) (s : RootState) → IsInSync s → IsInSync (run steps s)
unfolding run
run-IsInSync_from [] s h = h
run-IsInSync_from (x ∷ steps) s h = run-IsInSync_from steps (step x s) (step-IsInSync x s h)

load_bids-IsInSync :
    (previous : List (Option BidEvent)) (s : RootState)
    → IsInSync s
    → IsInSync (load_bids previous s).0
unfolding load_bids
load_bids-IsInSync [] s h = h
load_bids-IsInSync (none ∷ previous) s h = h
load_bids-IsInSync (some e ∷ previous) s h =
    load_bids-IsInSync previous (process_bid_filter e s) (process_bid-IsInSync e s h)

-- After the loading, and then after any sequence of events of the contract, answers of the subgraph,
-- effects of the offering page for any number in its path, clicks on the arrows and on the bid history
-- of a profile, the last id of the display is the id of the active offering, and the number on
-- display, if any, is not greater than it.
pub run-IsInSync :
    (current : Offering) (previous : List (Option BidEvent)) (steps : List Step)
    → IsInSync (run steps (load_state current previous initial_root).0)
unfolding load_state set_full_offering set_last
run-IsInSync current previous steps =
    run-IsInSync_from steps (load_state current previous initial_root).0
      (load_bids-IsInSync previous _ (record { last = refl; range = tt }))
