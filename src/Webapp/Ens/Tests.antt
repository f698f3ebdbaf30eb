-- ===== src/Webapp/Ens/Tests.antt =====
-- A library that knows two addresses, and the theorem at an answer that comes late.
use theword_monorepo.Prelude.{◌≡◌, refl, none, some, List, [], ◌∷◌, str_eq, if◌then◌else◌}
use theword_monorepo.Webapp.Ens.{
  Library, Hook, Event, mount, clean_up, call, run_effect, effect_at, answer_to, set_value,
  reverse_ens, ens_avatar, called, effected, answered, unmount, step, run,
}
use theword_monorepo.Webapp.Ens.Fresh.{Shows, run-Shows}

abbrev library : Library
library = record {
  lookup_address = λ moment address.
      if str_eq address "0xa1"
      then some "alice.eth"
      else if str_eq address "0xb2"
      then some ""
      else none;
  get_resolver = λ moment name. some name;
  get_text = λ moment resolver. some (some "alice.png");
}

-- The answer for the first address comes after the second one was asked for.
abbrev late : List (Event reverse_ens)
late = called "0xb2" (some library) ∷ effected ∷ answered 0 5 ∷ answered 1 6 ∷ []

late_is_lost : (run reverse_ens late (mount "0xa1" (some library))).value ≡ some ""
unfolding run step call run_effect clean_up set_value effect_at answer_to reverse_ens
late_is_lost = refl

named : (run reverse_ens (answered 0 5 ∷ []) (mount "0xa1" (some library))).value ≡ some "alice.eth"
unfolding run step set_value effect_at answer_to reverse_ens
named = refl

pictured :
    (run ens_avatar (answered 0 5 ∷ []) (mount "0xa1" (some library))).value ≡ some "alice.png"
unfolding run step set_value effect_at answer_to ens_avatar
pictured = refl

left : (run ens_avatar (unmount ∷ answered 0 5 ∷ []) (mount "0xa1" (some library))).value ≡ some ""
unfolding run step clean_up set_value effect_at answer_to ens_avatar
left = refl

-- In the call itself the earlier name is still returned.
still_named :
    (run reverse_ens
      (answered 0 5 ∷ called "0xb2" (some library) ∷ [])
      (mount "0xa1" (some library))).value
    ≡ some "alice.eth"
unfolding run step call set_value effect_at answer_to reverse_ens
still_named = refl

abbrev asked : Hook
asked = run reverse_ens (called "0xb2" (some library) ∷ []) (mount "0xa1" (some library))

abbrev answers : List (Event reverse_ens)
answers = answered 0 5 ∷ answered 1 6 ∷ []

run-Shows_example :
    Shows reverse_ens
      (run reverse_ens answers (run_effect asked)).value
      (run reverse_ens answers (run_effect asked)).address
      (run reverse_ens answers (run_effect asked)).library
run-Shows_example =
    run-Shows reverse_ens (called "0xb2" (some library) ∷ []) answers "0xa1" (some library)
      (tt, (tt, tt))
