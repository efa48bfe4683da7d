-- ===== src/Common/Text.antt =====
-- Text as the source builds it: decimal numbers, `padStart(2, '0')` and `trim`.
pub mod Trim
use Prim.Native.Nat.{ℕ, zero, suc, ◌+◌, ◌/◌, ◌%◌, ◌<◌}
use Prim.Native.Char.{code}
use Prim.Native.String.{String, ◌++◌}
use mathlib.Core.Path.{◌≡◌, refl}
use mathlib.Core.Bool.{Bool, true, false, ◌&&◌, ◌||◌}
use mathlib.Core.Logic.{inl, inr}
use mathlib.Core.Option.{Option, none, some}
use native.Mathlib.Omega.{arith}
use text.Mathlib.Text.{◌==◌}
use ai_with_mafia.Common.Tests.{ltb, leb, eqb, if◌then◌else◌, Bool-cases}

-- The character at an index, as a text.
char_at : String → ℕ → String
char_at String.[] n = ""
char_at (String.◌∷◌ c s) zero = String.◌∷◌ c ""
char_at (String.◌∷◌ c s) (suc n) = char_at s n

digit : ℕ → String
unfolding char_at
digit n = char_at "0123456789" n

-- The fuel bounds the number of digits.
decimal_from : ℕ → ℕ → String
unfolding digit
decimal_from zero n = ""
decimal_from (suc f) n =
    let longer = decimal_from f (n / 10) ++ digit (n % 10) in if ltb n 10 then digit n else longer

-- `${n}`
unfoldable pub decimal : ℕ → String
unfolding decimal_from
decimal n = decimal_from (suc n) n

-- Any fuel above the number gives the same digits.
decimal_from-fuel : (f g n : ℕ) → n < f → n < g → decimal_from f n ≡ decimal_from g n
unfolding decimal_from
decimal_from-fuel zero g n h k = absurd (omega arith)
decimal_from-fuel (suc f) zero n h k = absurd (omega arith)
decimal_from-fuel (suc f) (suc g) n h k = elim (Bool-cases (ltb n 10)) [
  | inl small ↦ rw small
  | inr large ↦ rw (large, decimal_from-fuel f g (n / 10) (ground arith) (ground arith)) refl
]

-- `.toString().padStart(2, '0')`
unfoldable pub pad_two : ℕ → String
unfolding decimal
pad_two n = if ltb n 10 then "0" ++ decimal n else decimal n

-- The white space and line ends that `trim` removes.
abbrev pub is_space : ℕ → Bool
is_space c =
    (leb 9 c && leb c 13)
    || eqb c 32
    || eqb c 160
    || eqb c 0x1680
    || (leb 0x2000 c && leb c 0x200a)
    || eqb c 0x2028
    || eqb c 0x2029
    || eqb c 0x202f
    || eqb c 0x205f
    || eqb c 0x3000
    || eqb c 0xfeff

unfoldable pub trim_start : String → String
trim_start String.[] = ""
trim_start (String.◌∷◌ c s) =
    let rest = trim_start s in if is_space (code c) then rest else String.◌∷◌ c s

-- A text of white space alone is dropped; elsewhere the last kept character ends the text.
unfoldable pub trim_end : String → String
trim_end String.[] = ""
trim_end (String.◌∷◌ c s) =
    let rest = trim_end s in if is_space (code c) && rest == "" then "" else String.◌∷◌ c rest

unfoldable pub trim : String → String
unfolding trim_start trim_end
trim s = trim_end (trim_start s)

-- A text is truthy unless it is empty.
abbrev pub not_empty : String → Bool
not_empty s = if s == "" then false else true

-- A text that may be absent is truthy if it is there and not empty.
abbrev pub truthy : Option String → Bool
truthy none = false
truthy (some s) = not_empty s

-- `text.length`: the UTF-16 units, of which a character outside the basic plane takes two.
unfoldable pub utf16_length : String → ℕ
utf16_length String.[] = 0
utf16_length (String.◌∷◌ c s) = (if leb 0x10000 (code c) then 2 else 1) + utf16_length s

abbrev pub starts_with : String → String → Bool
starts_with s String.[] = true
starts_with String.[] (String.◌∷◌ d t) = false
starts_with (String.◌∷◌ c s) (String.◌∷◌ d t) = eqb (code c) (code d) && starts_with s t

-- `s.includes(t)`
unfoldable pub includes : String → String → Bool
includes String.[] t = t == ""
includes (String.◌∷◌ c s) t = starts_with (String.◌∷◌ c s) t || includes s t
