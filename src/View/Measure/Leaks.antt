-- ===== src/View/Measure/Leaks.antt =====
-- Which observers of the measuring effect stay connected.
use Prim.Native.Nat.{ℕ}
use Prim.Native.String.{String}
use mathlib.Core.Path.{◌≡◌, refl, sym, ◌∙◌, ap, subst}
use mathlib.Core.Logic.{inl, inr}
use mathlib.Core.Bool.{Bool, true, false, ◌||◌, false≢true}
use mathlib.Core.Option.{Option, none, some}
use mathlib.Core.List.{List, [], ◌∷◌}
use native.Mathlib.Omega.{arith}
use ai_with_mafia.Common.Tests.{if◌then◌else◌, Bool-cases, eq_of_some}
use ai_with_mafia.Common.Lists.{get_elem?, get_elem?-modify, get_elem?-concat}
use ai_with_mafia.View.Measure.{
  no_observer, observing, disconnected, Effect, Measured, is_observing, disconnect_observer,
  disconnect_effect, observe, observes, MeasureInput, adds, alters, runs_effect, unmounts, loads,
  resizes, initial_measured, clean_up, run_effect, fonts_loaded, notify, relayout, measure_step,
  measure_run,
}

-- A run that waits for the fonts or observes.
abbrev pub is_live : Effect → Bool
is_live e = e.is_due || is_observing e.ro

-- The run is the one that is mounted, if it is live.
abbrev pub IsOwned : Option ℕ → List Effect → Type 0
IsOwned mounted es =
    (n : ℕ) (e : Effect) → get_elem? es n ≡ some e → is_live e ≡ true → mounted ≡ some n

abbrev pub due_at : Option Effect → Bool
due_at none = false
due_at (some e) = e.is_due

-- The input cleans a run up.
abbrev pub is_cleanup {ℓ} : {Px : Type ℓ} → MeasureInput Px → Bool
is_cleanup (runs_effect o) = true
is_cleanup unmounts = true
is_cleanup _ = false

-- The run that is mounted still waits for the fonts.
abbrev pub is_early : Option ℕ → List Effect → Bool
is_early none es = false
is_early (some n) es = due_at (get_elem? es n)

disconnect_effect-live : (e : Effect) → e.is_due ≡ false → is_live (disconnect_effect e) ≡ false
unfolding disconnect_effect
disconnect_effect-live e h =
    rw h (elim e.ro as (λ r. is_observing (disconnect_observer r) ≡ false) [
      | no_observer ↦ refl
      | observing ↦ refl
      | disconnected ↦ refl
    ])

observing-live : (e : Effect) → is_observing e.ro ≡ true → is_live e ≡ true
observing-live e on = ground arith

-- No run is live.
abbrev pub IsQuiet : List Effect → Type 0
IsQuiet es = (k : ℕ) (e : Effect) → get_elem? es k ≡ some e → is_live e ≡ false

abbrev pub runs {ℓ} : {Handle Px : Type ℓ} → Measured Handle Px → List Effect × Option ℕ
runs m = (m.effects, m.mounted)

module _ {ℓ} {Handle Px : Type ℓ} where
  clean_up-IsQuiet :
      (o : Option ℕ) (m : Measured Handle Px)
      → is_early o m.effects ≡ false
      → IsOwned o m.effects
      → IsQuiet (clean_up o m).effects
  unfolding clean_up
  clean_up-IsQuiet none m early own k e at = elim (Bool-cases (is_live e)) [
    | inl live ↦ cc (own k e at live)
    | inr dead ↦ dead
  ]
  clean_up-IsQuiet (some n) m early own k e at =
      elim (get_elem?-modify m.effects n k disconnect_effect at) [
        | inl (same, (a, old, made)) ↦
            ap is_live made
            ∙ disconnect_effect-live a
                (ap due_at (sym old) ∙ ap (λ j. due_at (get_elem? m.effects j)) (sym same) ∙ early)
        | inr (other, old) ↦ elim (Bool-cases (is_live e)) [
          | inl live ↦ absurd (other (eq_of_some (own k e old live)))
          | inr dead ↦ dead
        ]
      ]

  run_effect-IsOwned :
      (o : Option ℕ) (m : Measured Handle Px)
      → IsQuiet m.effects
      → IsOwned (run_effect o m).mounted (run_effect o m).effects
  unfolding run_effect
  run_effect-IsOwned none m quiet k e at live = absurd (false≢true (sym (quiet k e at) ∙ live))
  run_effect-IsOwned (some el) m quiet k e at live = elim (get_elem?-concat m.effects _ k at) [
    | inl (last, made) ↦ ap some (sym last)
    | inr old ↦ absurd (false≢true (sym (quiet k e old) ∙ live))
  ]

  module _ (prepare : String → String → Handle) (layout : Handle → Px → Px → Px)
      (parse_line_height : String → Px) where
    relayout_if-runs :
        (b : Bool) (k : ℕ) (m : Measured Handle Px)
        → runs (if b then relayout prepare layout parse_line_height k m else m) ≡ runs m
    unfolding relayout
    relayout_if-runs true k m = refl
    relayout_if-runs false k m = refl

    pub notify-runs :
        (k : ℕ) (es : List Effect) (m : Measured Handle Px)
        → runs (notify prepare layout parse_line_height k es m) ≡ runs m
    unfolding notify
    notify-runs k [] m = refl
    notify-runs k (e ∷ es) m = notify-runs k es _ ∙ relayout_if-runs (observes k e) k m

    abbrev OwnedIn : Measured Handle Px → Type 0
    OwnedIn m = IsOwned m.mounted m.effects

    fonts_loaded-IsOwned :
        (n : ℕ) (o : Option Effect) (m : Measured Handle Px)
        → get_elem? m.effects n ≡ o
        → OwnedIn m
        → OwnedIn (fonts_loaded prepare layout parse_line_height n o m)
    unfolding fonts_loaded relayout
    fonts_loaded-IsOwned n none m at own = own
    fonts_loaded-IsOwned n (some e) m at own = elim (Bool-cases e.is_due) [
      | inl due ↦ rw due (λ k b found live. elim (get_elem?-modify m.effects n k observe found) [
        | inl (same, w) ↦ own n e at (rw due refl) ∙ ap some same
        | inr (other, old) ↦ own k b old live
      ])
      | inr done ↦ rw done own
    ]

    measure_step-IsOwned :
        (i : MeasureInput Px) (m : Measured Handle Px)
        → (is_cleanup i ≡ true → is_early m.mounted m.effects ≡ false)
        → OwnedIn m
        → OwnedIn (measure_step prepare layout parse_line_height i m)
    unfolding measure_step
    measure_step-IsOwned (adds h) m timely own = own
    measure_step-IsOwned (alters k text font line_height width) m timely own = own
    measure_step-IsOwned (runs_effect o) m timely own =
        run_effect-IsOwned o _ (clean_up-IsQuiet m.mounted m (timely refl) own)
    measure_step-IsOwned unmounts m timely own = λ k e at live.
        absurd (false≢true (sym (clean_up-IsQuiet m.mounted m (timely refl) own k e at) ∙ live))
    measure_step-IsOwned (loads n) m timely own =
        fonts_loaded-IsOwned n (get_elem? m.effects n) m refl own
    measure_step-IsOwned (resizes k) m timely own =
        subst (λ r. IsOwned r.1 r.0) (sym (notify-runs k m.effects m)) own

    -- Whenever a run of the effect is cleaned up, its fonts have loaded.
    unfoldable pub IsTimely : List (MeasureInput Px) → Measured Handle Px → Type 0
    unfolding measure_step
    IsTimely [] m = Unit
    IsTimely (i ∷ is) m =
        (is_cleanup i ≡ true → is_early m.mounted m.effects ≡ false)
        × IsTimely is (measure_step prepare layout parse_line_height i m)

    measure_run-OwnedIn :
        (is : List (MeasureInput Px)) (m : Measured Handle Px)
        → IsTimely is m
        → OwnedIn m
        → OwnedIn (measure_run prepare layout parse_line_height is m)
    unfolding measure_run IsTimely
    measure_run-OwnedIn [] m timely own = own
    measure_run-OwnedIn (i ∷ is) m timely own =
        measure_run-OwnedIn is _ timely.1 (measure_step-IsOwned i m timely.0 own)

    -- After any inputs from the start, in which every run of the effect is cleaned up only after its
    -- fonts have loaded, a run whose observer is connected is the one that is mounted.
    pub observes-mounted :
        (is : List (MeasureInput Px)) (n : ℕ) (e : Effect)
        → IsTimely is initial_measured
        → get_elem? (measure_run prepare layout parse_line_height is initial_measured).effects n
          ≡ some e
        → is_observing e.ro ≡ true
        → (measure_run prepare layout parse_line_height is initial_measured).mounted ≡ some n
    unfolding initial_measured
    observes-mounted is n e timely at on =
        measure_run-OwnedIn is initial_measured timely (λ k b none_yet live. cc) n e at
          (observing-live e on)
