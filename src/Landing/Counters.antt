-- ===== src/Landing/Counters.antt =====
-- The counters of the statistics.
use Prim.Native.Nat.{ℕ, ◌+◌, ◌-◌, ◌*◌, ◌/◌, ◌≤◌, ◌<◌}
use mathlib.Core.Path.{◌≡◌, refl, ap, ◌∙◌}
use mathlib.Core.Logic.{inl, inr}
use mathlib.Core.Bool.{true, false}
use mathlib.Core.Option.{some}
use mathlib.Core.List.{List, [], ◌∷◌, ◌++◌}
use native.Mathlib.Omega.{arith}
use native.Mathlib.Nat.{
  le-div_iff_mul-le, div-mul-le_self, div-eq_of_lt-le, sub-zero, mul-le-mul, mul-le-mul_left,
  mul-pos,
}
use ai_with_mafia.Common.Tests.{ltb, Bool-cases}
use ai_with_mafia.Landing.{
  Counter, initial_counter, start_counter, eased_value, counter_frame, counter_frames,
}

div_mono : {k x y : ℕ} → 0 < k → x ≤ y → x / k ≤ y / k
div_mono {k = k} {x = x} {y = y} h l =
    let below = div-mul-le_self x k in (le-div_iff_mul-le h).1 (omega (arith, below, l))

cube_mono : {a b : ℕ} → a ≤ b → a * a * a ≤ b * b * b
cube_mono h = mul-le-mul (mul-le-mul h h) h

cube-pos : {d : ℕ} → 0 < d → 0 < 2 * (d * d * d)
cube-pos h = mul-pos (omega arith) (mul-pos (mul-pos h h) h)

-- `Math.round` of a part of `target`.
module _ (target whole : ℕ) (pos : 0 < whole) where
  rounded_mono :
      {x y : ℕ}
      → x ≤ y
      → (2 * (target * x) + whole) / (2 * whole) ≤ (2 * (target * y) + whole) / (2 * whole)
  rounded_mono h = div_mono (omega arith) (omega (arith, mul-le-mul_left target h))

  rounded_whole : (2 * (target * whole) + whole) / (2 * whole) ≡ target
  rounded_whole = div-eq_of_lt-le (2 * whole) (omega arith) (omega arith)

  rounded_below : {x : ℕ} → x ≤ whole → (2 * (target * x) + whole) / (2 * whole) ≤ target
  rounded_below {x = x} h = omega (arith, rounded_mono h, rounded_whole)

-- The number that is shown never falls, never passes the target, and is the target from the end of
-- the duration on.
pub eased_value_bounds :
    (target duration elapsed more : ℕ)
    → 0 < duration
    → (eased_value target duration elapsed ≤ eased_value target duration (elapsed + more))
      × (eased_value target duration elapsed ≤ target)
      × (eased_value target duration (duration + more) ≡ target)
unfolding eased_value
eased_value_bounds t d e m h =
    let pos = mul-pos (mul-pos h h) h in
    let less = cube_mono {a = d - (e + m)} {b = d - e} (omega arith) in
    (
      rounded_mono t (d * d * d) pos (omega (arith, less)),
      rounded_below t (d * d * d) pos (omega arith),
      (let gone : d - (d + m) ≡ 0 = omega arith in
          rw (gone, sub-zero (d * d * d)) (rounded_whole t (d * d * d) pos)),
    )

-- A counter that has come to its end.
abbrev finished : ℕ → ℕ → Counter
finished target first = record { start = some first; value = target; waiting = false }

abbrev counting : ℕ → ℕ → Counter
counting first value = record { start = some first; value = value; waiting = true }

counter_frames-finished :
    (target duration first : ℕ) (stamps : List ℕ)
    → counter_frames target duration stamps (finished target first) ≡ finished target first
unfolding counter_frames counter_frame
counter_frames-finished t d f [] = refl
counter_frames-finished t d f (ts ∷ stamps) = counter_frames-finished t d f stamps

eased_value_end :
    (target duration elapsed : ℕ)
    → 0 < duration
    → ltb elapsed duration ≡ false
    → eased_value target duration elapsed ≡ target
eased_value_end t d e h over =
    let same : d + (e - d) ≡ e = ground (arith, over) in
    rw same at (eased_value_bounds t d 0 (e - d) h).2

counter_frame-counting :
    (target duration first value ts : ℕ)
    → 0 < duration
    → ltb (ts - first) duration ≡ false
    → counter_frame target duration ts (counting first value) ≡ finished target first
unfolding counter_frame
counter_frame-counting t d f v ts h over = rw (over, eased_value_end t d (ts - f) h over) refl

counter_frames-over :
    (target duration first ts : ℕ) (stamps : List ℕ) (c : Counter)
    → counter_frame target duration ts c ≡ finished target first
    → counter_frames target duration (ts ∷ stamps) c ≡ finished target first
unfolding counter_frames
counter_frames-over t d f ts stamps c e =
    ap (counter_frames t d stamps) e ∙ counter_frames-finished t d f stamps

counter_frames-counting :
    (target duration first value last : ℕ) (stamps later : List ℕ)
    → 0 < duration
    → first + duration ≤ last
    → counter_frames target duration (stamps ++ last ∷ later) (counting first value)
      ≡ finished target first
unfolding counter_frames counter_frame
counter_frames-counting t d f v last [] later h l =
    counter_frames-over t d f last later (counting f v)
      (counter_frame-counting t d f v last h (ground (arith, l)))
counter_frames-counting t d f v last (ts ∷ stamps) later h l = elim (Bool-cases (ltb (ts - f) d)) [
  | inl running ↦
      rw (counter_frames, running)
        (counter_frames-counting t d f (eased_value t d (ts - f)) last stamps later h l)
  | inr over ↦
      counter_frames-over t d f ts (stamps ++ last ∷ later) (counting f v)
        (counter_frame-counting t d f v ts h over)
]

-- A counter of a duration above zero that has started takes its first frame as its start, and a
-- frame that comes at least its duration later leaves it at the target, with no frame requested,
-- whatever other frames come in between and afterwards.
counter_finishes :
    (target duration first last : ℕ) (stamps later : List ℕ)
    → 0 < duration
    → first + duration ≤ last
    → counter_frames target duration
        (first ∷ (stamps ++ last ∷ later))
        (start_counter initial_counter)
      ≡ record { start = some first; value = target; waiting = false }
unfolding counter_frames counter_frame
counter_finishes t d f last stamps later h l =
    let running : ltb (f - f) d ≡ true = ground (arith, h) in
    rw (counter_frames, running)
      (counter_frames-counting t d f (eased_value t d (f - f)) last stamps later h l)
