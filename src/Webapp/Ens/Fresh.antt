-- ===== src/Webapp/Ens/Fresh.antt =====
-- The name shown is never that of an earlier address.
use theword_monorepo.Prelude.{
  ℕ, ◌≡◌, refl, ◌⊎◌, inl, inr, String, false, Option, none, some, List, [], ◌∷◌, All, Bool-cases,
  Option-cases, ◌==◌, str_eq,
}
use mathlib.Core.Option.{some-injective}
use theword_monorepo.Webapp.Ens.{
  Library, Effect, Hook, mount, clean_up, call, run_effect, effect_at, answer_to, set_value, Event,
  called, effected, answered, unmount, step, run,
}

abbrev pub IsUnmounted : Effect → Type 0
IsUnmounted e = e.mounted ≡ false

-- A mounted effect has the address and the library of the latest one.
abbrev pub Agrees : Hook → Effect → Type 0
Agrees h e = (e.mounted ≡ false) ⊎ ((e.address ≡ h.latest.address) × (e.library ≡ h.latest.library))

-- The value is not set, is empty, or was answered for the address and the library.
abbrev pub Shows :
    (Library → ℕ → String → Option (Option String))
    → Option String
    → String
    → Option Library
    → Type 0
Shows answer value address library =
    (value ≡ none)
    ⊎ ((value ≡ some "")
        ⊎ ((moment : ℕ) × (l : Library) × (library ≡ some l)
            × (answer l moment address ≡ some value)))

-- An effect that is found agrees with the hook.
unmounted-Agrees :
    (h : Hook) (effects : List Effect) (n : ℕ) (e : Effect)
    → All IsUnmounted effects
    → effect_at effects n ≡ some e
    → Agrees h e
unfolding effect_at
unmounted-Agrees h [] n e a q = absurd (cc q)
unmounted-Agrees h (x ∷ effects) n e (g, a) q = elim (Bool-cases (x.number == n)) [
  | inl f ↦ let same : some x ≡ some e = (rw f at q) in inl (cc (g, same))
  | inr f ↦ unmounted-Agrees h effects n e a (rw f at q)
]

effect_at-Agrees :
    (h : Hook) (n : ℕ) (e : Effect)
    → All IsUnmounted h.earlier
    → effect_at (h.latest ∷ h.earlier) n ≡ some e
    → Agrees h e
unfolding effect_at
effect_at-Agrees h n e a q = elim (Bool-cases (h.latest.number == n)) [
  | inl f ↦
      let same : h.latest ≡ e = some-injective h.latest e (rw f at q) in inr (cc same, cc same)
  | inr f ↦ unmounted-Agrees h h.earlier n e a (rw f at q)
]

module _ (answer : Library → ℕ → String → Option (Option String)) where
  -- The value is in order, and only the latest effect may be mounted.
  abbrev pub IsFresh : Hook → Type 0
  IsFresh h = Shows answer h.value h.latest.address h.latest.library × All IsUnmounted h.earlier

  answer_to-answer :
      (moment : ℕ) (e : Effect) (v : Option String)
      → answer_to answer moment e ≡ some v
      → (l : Library) × (e.library ≡ some l) × (answer l moment e.address ≡ some v)
  unfolding answer_to
  answer_to-answer moment e v q = elim (Option-cases e.library) [
    | inl f ↦ absurd (let wrong : none ≡ some v = (rw f at q) in cc wrong)
    | inr (l, f) ↦ elim (Bool-cases (str_eq e.address "")) [
      | inl g ↦ absurd (let wrong : none ≡ some v = (rw (f, g) at q) in cc wrong)
      | inr g ↦ (l, f, (rw (f, g) at q))
    ]
  ]

  set_value-Shows :
      (h : Hook) (moment : ℕ) (o : Option Effect)
      → ((e : Effect) → o ≡ some e → Agrees h e)
      → Shows answer h.value h.latest.address h.latest.library
      → Shows answer (set_value answer moment o h.value) h.latest.address h.latest.library
  unfolding set_value
  set_value-Shows h moment none agrees s = s
  set_value-Shows h moment (some e) agrees s = elim (Option-cases (answer_to answer moment e)) [
    | inl f ↦ rw (f, set_value) s
    | inr (v, f) ↦ elim (Bool-cases e.mounted) [
      | inr g ↦ rw (f, g, set_value) s
      | inl g ↦ elim (agrees e refl) [
        | inl u ↦ absurd (cc (g, u))
        | inr (u, w) ↦
            let (l, here, a) = answer_to-answer moment e v f in
            rw (f, g, set_value) (inr (inr (moment, l, cc (here, w), cc (a, u))))
      ]
    ]
  ]

  step-IsFresh : (event : Event answer) (h : Hook) → IsFresh h → IsFresh (step answer event h)
  unfolding step call run_effect clean_up
  step-IsFresh (called address library) h (s, a) = (s, a)
  step-IsFresh effected h (s, a) = (inr (inl refl), (refl, a))
  step-IsFresh (answered n moment) h (s, a) = (
    set_value-Shows h moment (effect_at (h.latest ∷ h.earlier) n)
        (λ e q. effect_at-Agrees h n e a q) s,
    a,
  )
  step-IsFresh unmount h (s, a) = (inr (inl refl), a)

  run_keeps : (events : List (Event answer)) (h : Hook) → IsFresh h → IsFresh (run answer events h)
  unfolding run
  run_keeps [] h f = f
  run_keeps (event ∷ events) h f = run_keeps events (step answer event h) (step-IsFresh event h f)

  -- An event that is not a call of the hook with something else.
  abbrev pub IsNoCall : Event answer → Type 0
  IsNoCall (called address library) = ⊥
  IsNoCall effected = Unit
  IsNoCall (answered n moment) = Unit
  IsNoCall unmount = Unit

  -- The latest effect is the one of the latest call.
  abbrev IsCaughtUp : Hook → Type 0
  IsCaughtUp h = (h.latest.address ≡ h.address) × (h.latest.library ≡ h.library)

  step-IsCaughtUp :
      (event : Event answer) (h : Hook)
      → IsNoCall event
      → IsCaughtUp h
      → IsCaughtUp (step answer event h)
  unfolding step run_effect clean_up
  step-IsCaughtUp (called address library) h n c = absurd n
  step-IsCaughtUp effected h n c = (refl, refl)
  step-IsCaughtUp (answered m moment) h n c = c
  step-IsCaughtUp unmount h n c = c

  IsCaughtUp-keeps :
      (events : List (Event answer)) (h : Hook)
      → All IsNoCall events
      → IsCaughtUp h
      → IsCaughtUp (run answer events h)
  unfolding run
  IsCaughtUp-keeps [] h n c = c
  IsCaughtUp-keeps (event ∷ events) h (n, ns) c =
      IsCaughtUp-keeps events (step answer event h) ns (step-IsCaughtUp event h n c)

  -- Whatever calls, effects and answers come first, and in whatever order, late answers included: once
  -- the effect for a call has run, and until the hook is called with something else, the value is not
  -- set or empty, or the library of that call answered it for the address of that call.
  pub run-Shows :
      (before later : List (Event answer)) (address : String) (library : Option Library)
      → All IsNoCall later
      → Shows answer
          (run answer later (run_effect (run answer before (mount address library)))).value
          (run answer later (run_effect (run answer before (mount address library)))).address
          (run answer later (run_effect (run answer before (mount address library)))).library
  unfolding step run_effect clean_up
  run-Shows before later address library n =
      let first = run answer before (mount address library) in
      let h = run answer later (run_effect first) in
      let (s, a) =
        run_keeps later (run_effect first)
          (step-IsFresh effected first (run_keeps before (mount address library) (inl refl, tt))) in
      let (u, w) = IsCaughtUp-keeps later (run_effect first) n (refl, refl) in
      let e : Shows answer h.value h.address h.library = (rw (u, w) at s) in e
