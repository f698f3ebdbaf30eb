-- ===== src/Webapp/Ens.antt =====
-- utils/ensLookup.ts and utils/ensAvatar.ts: the name and the avatar of an address, which are asked
-- for by an effect that may be cleaned up before the answer comes. A library is whatever the hooks
-- are given; its answers are parameters.
pub mod Fresh
mod Tests
use theword_monorepo.Prelude.{
  ℕ, ◌+◌, String, Bool, true, false, not, ◌&&◌, Option, none, some, List, [], ◌∷◌, ◌==◌,
  if◌then◌else◌, str_eq, length,
}

-- What a library answers at a moment: a call that fails is `none`, and so is a name or a resolver
-- that is not there; the text may be null.
pub record Library : Type 0 where
  pub lookup_address : ℕ → String → Option String
  pub get_resolver : ℕ → String → Option String
  pub get_text : ℕ → String → Option (Option String)

-- One run of the effect, with its own `mounted`.
pub record Effect : Type 0 where
  pub number : ℕ
  pub address : String
  pub library : Option Library
  pub mounted : Bool

-- The value of `useState`, what the hook was last called with, and the effects, of which there is one
-- from the first call on. A call returns the value there is; the effect for the call runs after it.
pub record Hook : Type 0 where
  pub value : Option String
  pub address : String
  pub library : Option Library
  pub latest : Effect
  pub earlier : List Effect

-- `if (!name) return`
abbrev pub present : Option String → Option String
present none = none
present (some name) = if str_eq name "" then none else some name

-- What the effect of `useReverseENSLookUp` sets, if anything.
unfoldable pub reverse_ens : Library → ℕ → String → Option (Option String)
reverse_ens library moment address = elim (present (library.lookup_address moment address)) [
  | none ↦ none
  | some name ↦ some (some name)
]

-- What the effect of `useEnsAvatarLookup` sets, if anything, after three calls.
unfoldable pub ens_avatar : Library → ℕ → String → Option (Option String)
ens_avatar library moment address = elim (present (library.lookup_address moment address)) [
  | none ↦ none
  | some name ↦ elim (library.get_resolver moment name) [
    | none ↦ none
    | some resolver ↦ library.get_text moment resolver
  ]
]

abbrev pub mount : String → Option Library → Hook
mount address library = record {
  value = none;
  address = address;
  library = library;
  latest = record { number = 0; address = address; library = library; mounted = true };
  earlier = [];
}

-- `setEns('')` and `mounted = false`, for the latest effect.
unfoldable pub clean_up : Hook → Hook
clean_up h = record h { value = some ""; latest = record h.latest { mounted = false } }

-- The hook is called with another address or another library, and returns the value as it is.
unfoldable pub call : String → Option Library → Hook → Hook
call address library h = record h { address = address; library = library }

-- The effect after a call with another address or another library: the clean-up of the latest effect,
-- and a new one.
unfoldable pub run_effect : Hook → Hook
run_effect h =
    let cleaned = clean_up h in
    record cleaned {
      latest = record {
        number = length cleaned.earlier + 1;
        address = cleaned.address;
        library = cleaned.library;
        mounted = true;
      };
      earlier = cleaned.latest ∷ cleaned.earlier;
    }

unfoldable pub effect_at : List Effect → ℕ → Option Effect
effect_at [] n = none
effect_at (e ∷ effects) n = let rest = effect_at effects n in if e.number == n then some e else rest

module _ (answer : Library → ℕ → String → Option (Option String)) where
  -- What an effect was answered: nothing without an address or a library, as it asked for nothing.
  unfoldable pub answer_to : ℕ → Effect → Option (Option String)
  answer_to moment e = elim e.library [
    | none ↦ none
    | some library ↦ if str_eq e.address "" then none else answer library moment e.address
  ]

  -- The value after an effect was answered.
  unfoldable pub set_value : ℕ → Option Effect → Option String → Option String
  set_value moment none value = value
  set_value moment (some e) value = elim (answer_to moment e) [
    | none ↦ value
    | some name ↦ if e.mounted then name else value
  ]

  pub data Event : Type 0 where
    called : String → Option Library → Event
    effected : Event
    answered : ℕ → ℕ → Event
    unmount : Event

  unfoldable pub step : Event → Hook → Hook
  step (called address library) h = call address library h
  step effected h = run_effect h
  step (answered n moment) h = record h {
    value = set_value moment (effect_at (h.latest ∷ h.earlier) n) h.value;
  }
  step unmount h = clean_up h

  unfoldable pub run : List Event → Hook → Hook
  run [] h = h
  run (event ∷ events) h = run events (step event h)
