-- ===== src/Webapp/Display/Shown.antt =====
-- What useOnDisplayOffering shows has the id that is on display.
use theword_monorepo.Prelude.{
  ℕ, ◌≤◌, ◌≡◌, refl, ap, true, Option, none, some, List, [], ◌∷◌, arith, leb, inl, inr, Bool-cases,
  All, ==_iff,
}
use theword_monorepo.Prelude.Int.{ℤ, pos, negsuc}
use theword_monorepo.Webapp.Offering.{Offering}
use theword_monorepo.Webapp.OnDisplay.{whole, next_ℤ}
use theword_monorepo.Webapp.Display.{
  OfferingData, past_offering, redux_safe_past_offerings, is_thewordder_theword, magnitude,
  max_safe, is_safe, from_number, Displayed, is_id, find_offering,
  generate_empty_thewordder_offering, find_shown, past_to_show, other_offering, on_display_offering,
  empty_thewordder_offering,
}

-- There is no exception, and what is shown, if anything, has the given id.
abbrev pub Shows : ℤ → Option (Option Displayed) → Type 0
Shows id none = ⊥
Shows id (some none) = Unit
Shows id (some (some o)) = o.theword_id ≡ id

is_id-eq : (n : ℕ) (id : ℤ) → is_id n id ≡ true → pos n ≡ id
is_id-eq n (pos m) h = ap pos ((==_iff n m).0 h)
is_id-eq n (negsuc m) h = absurd (cc h)

-- An id that toNumber can read.
abbrev pub IsReadable : OfferingData → Type 0
IsReadable d = d.id ≤ max_safe

find_shown-Shows :
    (id : ℤ) (stored : List OfferingData)
    → All IsReadable stored
    → Shows id (elim (find_shown id (redux_safe_past_offerings stored)) [
      | none ↦ none
      | some s ↦ some (past_to_show s)
    ])
unfolding find_shown
find_shown-Shows id [] a = tt
find_shown-Shows id (d ∷ stored) (r, a) =
    let read : leb d.id max_safe ≡ true = ground arith in
    elim (Bool-cases (is_id d.id id)) [
      | inl same ↦ rw (read, same) (is_id-eq d.id id same)
      | inr other ↦ rw (read, other) (find_shown-Shows id stored a)
    ]

-- The past offerings that the slice stores all have an active offering.
find_offering_stored :
    (id : ℤ) (stored : List OfferingData)
    → (o : Option Offering) × (find_offering id (redux_safe_past_offerings stored) ≡ some o)
unfolding find_offering
find_offering_stored id [] = (none, refl)
find_offering_stored id (d ∷ stored) = elim (Bool-cases (is_id d.id id)) [
  | inl same ↦ ((past_offering d).active_offering, rw same refl)
  | inr other ↦ rw other (find_offering_stored id stored)
]

started :
    (id : ℤ) (o : Option Offering)
    → (p : Displayed) × ((Path
          (Option Displayed)
          (elim o [
            | none ↦ some (empty_thewordder_offering id)
            | some above ↦
                some (record (empty_thewordder_offering id) { start_time = above.start_time })
          ])
          (some p))
        × (p.theword_id ≡ id))
started id none = (_, (refl, refl))
started id (some above) = (_, (refl, refl))

generate_empty_stored :
    (id : ℤ) (stored : List OfferingData)
    → (o : Displayed) × ((generate_empty_thewordder_offering id (redux_safe_past_offerings stored)
          ≡ some o)
        × (o.theword_id ≡ id))
unfolding generate_empty_thewordder_offering
generate_empty_stored id stored =
    let (o, e) = find_offering_stored (next_ℤ id) stored in
    rw (e, generate_empty_thewordder_offering) (started id o)

pub from_number-whole : (id : ℤ) → is_safe id ≡ true → from_number (whole id) ≡ some id
unfolding from_number
from_number-whole id h = rw h refl

-- With a whole number that BigNumber.from takes on display, a current offering, and past offerings
-- that the slice has stored and whose ids toNumber can read, the choice of the offering to show raises
-- no exception, and what it shows, if anything, has the id on display.
pub on_display_offering-Shows :
    (id : ℤ) (current : Offering) (stored : List OfferingData)
    → is_safe id ≡ true
    → All IsReadable stored
    → Shows id
        (on_display_offering (some (whole id)) (some current) (redux_safe_past_offerings stored))
unfolding on_display_offering other_offering
on_display_offering-Shows id current stored safe a =
    rw (from_number-whole id safe, on_display_offering)
      (elim (Bool-cases (is_id current.theword_id id)) [
        | inl same ↦ rw same (is_id-eq current.theword_id id same)
        | inr other ↦ rw other (elim (Bool-cases (is_thewordder_theword (magnitude id))) [
          | inl tenth ↦ let (o, (e, k)) = generate_empty_stored id stored in rw (tenth, e) k
          | inr n ↦ rw n (find_shown-Shows id stored a)
        ])
      ])
