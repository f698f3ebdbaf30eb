-- ===== src/Webapp/OnDisplay.antt =====
-- onDisplayOffering.ts: the last offering and the one on display.
use theword_monorepo.Prelude.{
  ℕ, ◌+◌, ◌-◌, ◌<◌, ◌≤◌, ◌≡◌, refl, Bool, false, Option, none, some, List, [], ◌∷◌, arith, ◌==◌,
  if◌then◌else◌, Bool-cases, inl, inr, true,
}
use theword_monorepo.Prelude.Int.{ℤ, pos, negsuc}

-- A JavaScript number, as the id in a path is: whole, between a whole number and the next one, or one
-- of those that are neither. The rounding of numbers from 2^53 on is left out.
pub data JsNumber : Type 0 where
  whole : ℤ → JsNumber
  fraction : ℤ → JsNumber
  nan : JsNumber
  infinite : JsNumber
  minus_infinite : JsNumber

abbrev pub next_ℤ : ℤ → ℤ
next_ℤ (pos n) = pos (n + 1)
next_ℤ (negsuc n) = if n == 0 then pos 0 else negsuc (n - 1)

abbrev pub prev_ℤ : ℤ → ℤ
prev_ℤ (pos n) = if n == 0 then negsuc 0 else pos (n - 1)
prev_ℤ (negsuc n) = negsuc (n + 1)

abbrev pub move_by : (ℤ → ℤ) → JsNumber → JsNumber
move_by f (whole z) = whole (f z)
move_by f (fraction z) = fraction (f z)
move_by f nan = nan
move_by f infinite = infinite
move_by f minus_infinite = minus_infinite

-- `!number`
abbrev pub is_falsy : JsNumber → Bool
is_falsy (whole (pos n)) = n == 0
is_falsy (whole (negsuc n)) = false
is_falsy (fraction z) = false
is_falsy nan = true
is_falsy infinite = false
is_falsy minus_infinite = false

-- `last === number`
abbrev pub is_number : ℕ → JsNumber → Bool
is_number l (whole (pos n)) = l == n
is_number l _ = false

pub record OnDisplayOfferingState : Type 0 where
  pub last : Option ℕ
  pub on_display : Option JsNumber

unfoldable pub set_last : ℕ → OnDisplayOfferingState → OnDisplayOfferingState
set_last n s = record s { last = some n }

unfoldable pub set_on_display : JsNumber → OnDisplayOfferingState → OnDisplayOfferingState
set_on_display n s = record s { on_display = some n }

unfoldable pub set_prev : OnDisplayOfferingState → OnDisplayOfferingState
set_prev s = elim s.on_display [
  | none ↦ s
  | some d ↦ if is_falsy d then s else record s { on_display = some (move_by prev_ℤ d) }
]

-- `last === on_display`, of which `on_display` is a number.
abbrev pub is_last : Option ℕ → JsNumber → Bool
is_last none d = false
is_last (some l) d = is_number l d

unfoldable pub set_next : OnDisplayOfferingState → OnDisplayOfferingState
set_next s = elim s.on_display [
  | none ↦ s
  | some d ↦ if is_last s.last d then s else record s { on_display = some (move_by next_ℤ d) }
]

pub data Move : Type 0 where
  prev : Move
  next : Move

unfoldable pub go : Move → OnDisplayOfferingState → OnDisplayOfferingState
go prev s = set_prev s
go next s = set_next s

unfoldable pub navigate : List Move → OnDisplayOfferingState → OnDisplayOfferingState
navigate [] s = s
navigate (m ∷ moves) s = navigate moves (go m s)

abbrev pub showing : ℕ → ℕ → OnDisplayOfferingState
showing l d = record { last = some l; on_display = some (whole (pos d)) }

go-showing :
    (m : Move) (l d : ℕ) → d ≤ l → (d' : ℕ) × ((d' ≤ l) × (go m (showing l d) ≡ showing l d'))
unfolding go set_prev set_next
go-showing prev l d h = elim (Bool-cases (d == 0)) [
  | inl e ↦ (d, (h, rw e refl))
  | inr n ↦ (d - 1, (omega arith, rw n refl))
]
go-showing next l d h = elim (Bool-cases (l == d)) [
  | inl e ↦ (d, (h, rw e refl))
  | inr n ↦ (d + 1, (ground arith, rw n refl))
]

-- From an offering on display that is not after the last one, any sequence of moves to the previous
-- and to the next offering leaves the last one as it is and shows one that is not after it.
pub navigate-showing :
    (moves : List Move) (l d : ℕ)
    → d ≤ l
    → (d' : ℕ) × ((d' ≤ l) × (navigate moves (showing l d) ≡ showing l d'))
unfolding navigate
navigate-showing [] l d h = (d, (h, refl))
navigate-showing (m ∷ moves) l d h =
    let (d', (k, e)) = go-showing m l d h in rw e (navigate-showing moves l d' k)

-- For an offering before the last one, going to the next and then to the previous shows it again,
-- and for the one after it so does going to the previous and then to the next.
pub next_prev :
    (l d : ℕ)
    → d < l
    → (set_prev (set_next (showing l d)) ≡ showing l d)
      × (set_next (set_prev (showing l (d + 1))) ≡ showing l (d + 1))
unfolding set_prev set_next
next_prev l d h =
    let n : (l == d) ≡ false = ground arith in
    let back : (d + 1) - 1 ≡ d = omega arith in
    let z : ((d + 1) == 0) ≡ false = ground arith in (rw (n, z, back) refl, rw (z, back, n) refl)
