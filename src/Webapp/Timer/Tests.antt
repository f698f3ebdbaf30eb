-- ===== src/Webapp/Timer/Tests.antt =====
-- The timer of an offering that has 340 seconds left.
use theword_monorepo.Prelude.{ℕ, ◌+◌, ◌≤◌, ◌≡◌, refl, true, false, some, arith}
use theword_monorepo.Webapp.Timer.{TimerState, check, run, run-ends}

abbrev fresh : TimerState
fresh = record { offering_ended = false; offering_timer = false }

-- Every timer fires two seconds late.
abbrev two_late : ℕ → ℕ
two_late now = 2

run-ends_example :
    (t : TimerState) × (at : ℕ) × (run two_late 341 1340 1000 fresh ≡ some (t, at))
    × (1340 ≤ at)
    × (at ≤ 1340 + 2)
    × (t.offering_ended ≡ true)
run-ends_example =
    run-ends two_late 2 341 1340 1000 fresh (λ now. omega arith) (omega arith) (omega arith)
      (omega arith)

-- The first delay is 30 seconds.
first_delay : (check 1340 1000 fresh).1 ≡ some 30
unfolding check
first_delay = refl
