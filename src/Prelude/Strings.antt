-- ===== src/Prelude/Strings.antt =====
-- Texts put together.
use Prim.Native.Char.{Char}
use Prim.Native.String.{String}
use mathlib.Core.Path.{◌≡◌}
use mathlib.Core.Bool.{false}
use text.Mathlib.Text.{◌==◌}
use text.Mathlib.TextEquality.{eq_iff}
use theword_monorepo.Prelude.Tests.{Bool-cases}
use mathlib.Core.Logic.{inl, inr}

infixr 60 ◌+s◌
abbrev pub ◌+s◌ : String → String → String
String.[] +s t = t
(String.◌∷◌ c s) +s t = String.◌∷◌ c (s +s t)

pub cons-ne-empty : (c : Char) (s : String) → (String.◌∷◌ c s == "") ≡ false
cons-ne-empty c s = elim (Bool-cases (String.◌∷◌ c s == "")) [
  | inl e ↦ absurd (cc ((eq_iff (String.◌∷◌ c s) "").0 e))
  | inr e ↦ e
]
