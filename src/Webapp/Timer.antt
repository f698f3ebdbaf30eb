-- ===== src/Webapp/Timer.antt =====
-- components/OfferingActivity: the timer that notices the end of an offering. Times are in seconds. A
-- timer fires when its delay is over or later; how late the one set at a time is is a parameter.
mod Tests
use theword_monorepo.Prelude.{
  ℕ, zero, suc, ◌+◌, ◌-◌, ◌≤◌, ◌<◌, ◌≡◌, refl, ap, Bool, true, false, not, Option, none, some,
  arith, ltb, leb, if◌then◌else◌, inl, inr, Bool-cases,
}

pub record TimerState : Type 0 where
  pub offering_ended : Bool
  pub offering_timer : Bool

-- The delay until the next check: 30 seconds while more than five minutes are left, and then 1.
abbrev pub delay : ℕ → ℕ
delay time_left = if ltb 300 time_left then 30 else 1

-- The effect at a time: the state, and the delay of the timer that it sets, if it sets one.
unfoldable pub check : ℕ → ℕ → TimerState → TimerState × Option ℕ
check end_time now s =
    if leb end_time now
    then (record s { offering_ended = true }, none)
    else (record s { offering_ended = false }, some (delay (end_time - now)))

-- The timer fires, and the effect runs again.
abbrev pub fire : TimerState → TimerState
fire s = record s { offering_timer = not s.offering_timer }

-- The last check sets no timer; after another one the timer fires, so many seconds late.
abbrev pub after_check :
    (ℕ → TimerState → Option (TimerState × ℕ))
    → ℕ
    → ℕ
    → TimerState × Option ℕ
    → Option (TimerState × ℕ)
after_check later late now (t, none) = some (t, now)
after_check later late now (t, some d) = later (now + d + late) (fire t)

-- The checks from a time on, up to the one that sets no timer, and its time. The fuel is their number.
unfoldable pub run : (ℕ → ℕ) → ℕ → ℕ → ℕ → TimerState → Option (TimerState × ℕ)
run late zero end_time now s = none
run late (suc fuel) end_time now s =
    after_check (λ n t. run late fuel end_time n t) (late now) now (check end_time now s)

check_over :
    (end_time now : ℕ) (s : TimerState)
    → leb end_time now ≡ true
    → check end_time now s ≡ (record s { offering_ended = true }, none)
unfolding check
check_over end_time now s h = rw h refl

check_left :
    (end_time now : ℕ) (s : TimerState)
    → leb end_time now ≡ false
    → check end_time now s ≡ (record s { offering_ended = false }, some (delay (end_time - now)))
unfolding check
check_left end_time now s h = rw h refl

-- A timer is at most so many seconds late.
abbrev pub IsBounded : ℕ → (ℕ → ℕ) → Type 0
IsBounded most late = (now : ℕ) → late now ≤ most

-- If no timer fires more than some number of seconds late, then from any time on that is not later
-- than that number of seconds after the end of an offering, the checks come to an end, after so many
-- at most as seconds are left and one more; the last one is not before the end, at most that number
-- of seconds after it, and says that the offering has ended.
pub run-ends :
    (late : ℕ → ℕ) (most fuel end_time now : ℕ) (s : TimerState)
    → IsBounded most late
    → now ≤ end_time + most
    → end_time < now + fuel
    → 0 < fuel
    → (t : TimerState) × (at : ℕ) × (run late fuel end_time now s ≡ some (t, at))
      × (end_time ≤ at)
      × (at ≤ end_time + most)
      × (t.offering_ended ≡ true)
unfolding run
run-ends late most zero end_time now s b le lt some_fuel = absurd (omega arith)
run-ends late most (suc fuel) end_time now s b le lt some_fuel =
    elim (Bool-cases (leb end_time now)) [
      | inl over ↦ (
        record s { offering_ended = true },
        now,
        rw (check_over end_time now s over, run) refl,
        ground arith,
        le,
        refl,
      )
      | inr left ↦
          let before = fire (record s { offering_ended = false }) in
          let d = delay (end_time - now) in
          let small : late now ≤ most = b now in
          let step : now + d + late now ≤ end_time + most = ground arith in
          let more : end_time < now + d + late now + fuel = ground arith in
          let again : 0 < fuel = ground arith in
          let (t, at, e, after, soon, ended) =
            run-ends late most fuel end_time (now + d + late now) before b step more again in
          (t, at, (rw (check_left end_time now s left, run) e), after, soon, ended)
    ]
