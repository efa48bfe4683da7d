-- ===== src/Common/Text/Trim.antt =====
-- A trimmed text is trimmed.
use Prim.Native.Char.{code}
use Prim.Native.String.{String}
use mathlib.Core.Path.{◌≡◌, refl, ap, ◌∙◌}
use mathlib.Core.Logic.{inl, inr}
use mathlib.Core.Bool.{◌&&◌}
use text.Mathlib.Text.{◌==◌}
use ai_with_mafia.Common.Tests.{Bool-cases}
use ai_with_mafia.Common.Text.{is_space, trim, trim_start, trim_end}

trim_end-trim_end : (s : String) → trim_end (trim_end s) ≡ trim_end s
unfolding trim_end
trim_end-trim_end String.[] = refl
trim_end-trim_end (String.◌∷◌ c s) = elim (Bool-cases (is_space (code c) && trim_end s == "")) [
  | inl blank ↦ rw blank refl
  | inr kept ↦ rw (kept, trim_end-trim_end s, kept) refl
]

trim_start-trim_end : (s : String) → trim_start (trim_end (trim_start s)) ≡ trim_end (trim_start s)
unfolding trim_start trim_end
trim_start-trim_end String.[] = refl
trim_start-trim_end (String.◌∷◌ c s) = elim (Bool-cases (is_space (code c))) [
  | inl space ↦ rw space (trim_start-trim_end s)
  | inr solid ↦ rw (solid, trim_end, solid, trim_start, solid) refl
]

pub trim-trim : (s : String) → trim (trim s) ≡ trim s
unfolding trim
trim-trim s = ap trim_end (trim_start-trim_end s) ∙ trim_end-trim_end (trim_start s)
