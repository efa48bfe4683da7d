-- ===== src/Common/Assoc.antt =====
-- A `Record<string, V>` as an association list in the order of its keys.
use Prim.Native.String.{String}
use mathlib.Core.Path.{◌≡◌, refl}
use mathlib.Core.Option.{Option, none, some}
use mathlib.Core.List.{List, [], ◌∷◌, map}
use native.Mathlib.Omega.{arith}
use text.Mathlib.Text.{◌==◌}
use text.Mathlib.TextEquality.{eq_iff}
use ai_with_mafia.Common.Tests.{if◌then◌else◌}

module _ {ℓ} {A : Type ℓ} where
  -- What the object holds under a name.
  unfoldable pub lookup : String → List (String × A) → Option A
  lookup name [] = none
  lookup name ((old, held) ∷ fields) = if old == name then some held else lookup name fields

  -- Setting a field: an old one keeps its place, a new one goes to the end.
  unfoldable pub insert : String → A → List (String × A) → List (String × A)
  insert name a [] = (name, a) ∷ []
  insert name a ((old, held) ∷ fields) =
      let rest = insert name a fields in
      if old == name then (old, a) ∷ fields else (old, held) ∷ rest

  -- `Object.values`
  abbrev pub values : List (String × A) → List A
  values = map (λ field. field.1)

  pub lookup-insert :
      (name read : String) (a : A) (fields : List (String × A))
      → lookup read (insert name a fields) ≡ (if name == read then some a else lookup read fields)
  unfolding lookup insert
  lookup-insert name read a [] = refl
  lookup-insert name read a ((old, held) ∷ fields) =
      ground (
        arith,
        eq_iff name read,
        eq_iff old read,
        eq_iff old name,
        lookup-insert name read a fields,
      )
