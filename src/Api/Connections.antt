-- ===== src/Api/Connections.antt =====
-- The list of connections that the server keeps for its shutdown.
use theword_monorepo.Prelude.{
  ℕ, ◌≡◌, refl, Bool, true, false, not, ◌||◌, List, [], ◌∷◌, arith, ◌==◌, if◌then◌else◌, filter,
  inl, inr, Bool-cases,
}
use theword_monorepo.Api.{SocketEvent, connection, close, push, on_event, on_events}

abbrev pub contains : ℕ → List ℕ → Bool
contains c [] = false
contains c (d ∷ connections) = (d == c) || contains c connections

-- Whether the last event of the connection, if it has one, opened it.
abbrev pub is_open_after : ℕ → Bool → List SocketEvent → Bool
is_open_after c before [] = before
is_open_after c before (connection d ∷ events) =
    is_open_after c (if d == c then true else before) events
is_open_after c before (close d ∷ events) =
    is_open_after c (if d == c then false else before) events

contains-push :
    (c d : ℕ) (connections : List ℕ)
    → contains c (push connections d) ≡ (if d == c then true else contains c connections)
contains-push c d [] = ground arith
contains-push c d (e ∷ connections) = ground (arith, contains-push c d connections)

contains-filter :
    (c d : ℕ) (connections : List ℕ)
    → contains c (filter (λ curr. not (curr == d)) connections)
      ≡ (if d == c then false else contains c connections)
contains-filter c d [] = ground arith
contains-filter c d (e ∷ connections) = elim (Bool-cases (e == d)) [
  | inl same ↦ rw same (ground (arith, contains-filter c d connections))
  | inr other ↦ rw other (ground (arith, contains-filter c d connections))
]

on_events-contains_from :
    (c : ℕ) (events : List SocketEvent) (connections : List ℕ)
    → contains c (on_events events connections) ≡ is_open_after c (contains c connections) events
unfolding on_events on_event
on_events-contains_from c [] connections = refl
on_events-contains_from c (connection d ∷ events) connections =
    rw (← contains-push c d connections) (on_events-contains_from c events (push connections d))
on_events-contains_from c (close d ∷ events) connections =
    rw (← contains-filter c d connections)
      (on_events-contains_from c events (filter (λ curr. not (curr == d)) connections))

-- After any events, the connections that a shutdown ends are exactly those that were opened and not
-- closed since.
pub on_events-contains :
    (c : ℕ) (events : List SocketEvent)
    → contains c (on_events events []) ≡ is_open_after c false events
on_events-contains c events = on_events-contains_from c events []
