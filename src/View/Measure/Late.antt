-- ===== src/View/Measure/Late.antt =====
-- A run of the measuring effect whose fonts load after its cleanup.
use Prim.Native.Nat.{ℕ}
use Prim.Native.String.{String}
use mathlib.Core.Path.{◌≡◌, refl, sym, ◌∙◌, ap, subst}
use mathlib.Core.Logic.{◌≢◌, ◌⊎◌, inl, inr}
use mathlib.Core.Bool.{true, false, false≢true}
use mathlib.Core.Option.{Option, none, some}
use mathlib.Core.List.{List, [], ◌∷◌, ◌++◌}
use native.Mathlib.Omega.{arith}
use native.Mathlib.Decide.{ℕ_discrete}
use ai_with_mafia.Common.Tests.{Bool-cases, eq_of_some}
use ai_with_mafia.Common.Lists.{
  get_elem?, modify, get_elem?-lt, get_elem?-modify_same, get_elem?-modify_other, get_elem?-append,
}
use ai_with_mafia.View.Measure.{
  observing, Effect, Measured, disconnect_effect, observe, MeasureInput, adds, alters, runs_effect,
  unmounts, loads, resizes, clean_up, run_effect, fonts_loaded, relayout, measure_step, measure_run,
}
use ai_with_mafia.View.Measure.Leaks.{is_cleanup, notify-runs}

-- The run is over for React, and `P` holds of it.
record IsLeft (P : Effect → Type 0) (n : ℕ) (mounted : Option ℕ) (es : List Effect) : Type 0 where
  effect : Effect
  made : get_elem? es n ≡ some effect
  holds : P effect
  apart : mounted ≢ some n

-- Its observer is connected.
abbrev IsConnected : Effect → Type 0
IsConnected e = (e.ro ≡ observing) × (e.is_due ≡ false)

-- It still waits for the fonts, or its observer is connected.
abbrev IsLate : Effect → Type 0
IsLate e = (e.is_due ≡ true) ⊎ IsConnected e

observe-IsConnected : (e : Effect) → IsConnected (observe e)
unfolding observe
observe-IsConnected e = (refl, refl)

module _ (P : Effect → Type 0) (n : ℕ) where
  modify-IsLeft :
      (k : ℕ) (f : Effect → Effect) (mounted : Option ℕ) (es : List Effect)
      → n ≢ k
      → IsLeft P n mounted es
      → IsLeft P n mounted (modify es k f)
  modify-IsLeft k f mounted es other l = record {
    effect = l.effect;
    made = get_elem?-modify_other es k n f other ∙ l.made;
    holds = l.holds;
    apart = l.apart;
  }

  observe-IsLeft :
      (k : ℕ) (mounted : Option ℕ) (es : List Effect)
      → ((e : Effect) → IsConnected e → P e)
      → IsLeft P n mounted es
      → IsLeft P n mounted (modify es k observe)
  observe-IsLeft k mounted es ok l = elim (ℕ_discrete n k) [
    | yes same ↦ record {
      effect = observe l.effect;
      made =
          ap (λ j. get_elem? (modify es j observe) n) (sym same)
          ∙ get_elem?-modify_same es n observe l.made;
      holds = ok (observe l.effect) (observe-IsConnected l.effect);
      apart = l.apart;
    }
    | no other ↦ modify-IsLeft k observe mounted es other l
  ]

module _ {ℓ} {Handle Px : Type ℓ} (P : Effect → Type 0) (n : ℕ) where
  clean_up-IsLeft :
      (o : Option ℕ) (m : Measured Handle Px)
      → o ≡ m.mounted
      → IsLeft P n m.mounted m.effects
      → IsLeft P n (clean_up o m).mounted (clean_up o m).effects
  unfolding clean_up
  clean_up-IsLeft none m e l = l
  clean_up-IsLeft (some k) m e l =
      modify-IsLeft P n k disconnect_effect none m.effects (λ h. l.apart (sym e ∙ ap some (sym h)))
        (record { effect = l.effect; made = l.made; holds = l.holds; apart = λ h. cc })

  run_effect-IsLeft :
      (o : Option ℕ) (m : Measured Handle Px)
      → IsLeft P n m.mounted m.effects
      → IsLeft P n (run_effect o m).mounted (run_effect o m).effects
  unfolding run_effect
  run_effect-IsLeft none m l = l
  run_effect-IsLeft (some el) m l = record {
    effect = l.effect;
    made = get_elem?-append m.effects _ n l.made;
    holds = l.holds;
    apart = λ h. omega (arith, get_elem?-lt m.effects n l.made, eq_of_some h);
  }

  module _ (prepare : String → String → Handle) (layout : Handle → Px → Px → Px)
      (parse_line_height : String → Px) (ok : (e : Effect) → IsConnected e → P e) where
    abbrev LeftIn : Measured Handle Px → Type 0
    LeftIn m = IsLeft P n m.mounted m.effects

    fonts_loaded-IsLeft :
        (k : ℕ) (o : Option Effect) (m : Measured Handle Px)
        → LeftIn m
        → LeftIn (fonts_loaded prepare layout parse_line_height k o m)
    unfolding fonts_loaded relayout
    fonts_loaded-IsLeft k none m l = l
    fonts_loaded-IsLeft k (some e) m l = elim (Bool-cases e.is_due) [
      | inl due ↦ rw due (observe-IsLeft P n k m.mounted m.effects ok l)
      | inr done ↦ rw done l
    ]

    measure_step-IsLeft :
        (i : MeasureInput Px) (m : Measured Handle Px)
        → LeftIn m
        → LeftIn (measure_step prepare layout parse_line_height i m)
    unfolding measure_step
    measure_step-IsLeft (adds h) m l = l
    measure_step-IsLeft (alters k text font line_height width) m l = l
    measure_step-IsLeft (runs_effect o) m l =
        run_effect-IsLeft o _ (clean_up-IsLeft m.mounted m refl l)
    measure_step-IsLeft unmounts m l = clean_up-IsLeft m.mounted m refl l
    measure_step-IsLeft (loads k) m l = fonts_loaded-IsLeft k _ m l
    measure_step-IsLeft (resizes k) m l =
        subst (λ r. IsLeft P n r.1 r.0)
          (sym (notify-runs prepare layout parse_line_height k m.effects m)) l

    measure_run-IsLeft :
        (is : List (MeasureInput Px)) (m : Measured Handle Px)
        → LeftIn m
        → LeftIn (measure_run prepare layout parse_line_height is m)
    unfolding measure_run
    measure_run-IsLeft [] m l = l
    measure_run-IsLeft (i ∷ is) m l = measure_run-IsLeft is _ (measure_step-IsLeft i m l)

module _ {ℓ} {Handle Px : Type ℓ} (prepare : String → String → Handle)
    (layout : Handle → Px → Px → Px) (parse_line_height : String → Px) where
  -- The cleanup of the run, which waits for the fonts.
  cleaned-IsLate :
      (n : ℕ) (e : Effect) (m : Measured Handle Px)
      → get_elem? m.effects n ≡ some e
      → e.is_due ≡ true
      → IsLeft IsLate n (clean_up (some n) m).mounted (clean_up (some n) m).effects
  unfolding clean_up disconnect_effect
  cleaned-IsLate n e m at due = record {
    effect = disconnect_effect e;
    made = get_elem?-modify_same m.effects n disconnect_effect at;
    holds = inl due;
    apart = λ h. cc;
  }

  -- The cleanup of a run that waits for the fonts.
  cleanup-IsLate :
      (n : ℕ) (e : Effect) (i : MeasureInput Px) (m : Measured Handle Px)
      → is_cleanup i ≡ true
      → get_elem? m.effects n ≡ some e
      → e.is_due ≡ true
      → m.mounted ≡ some n
      → let d = measure_step prepare layout parse_line_height i m in
        IsLeft IsLate n d.mounted d.effects
  unfolding measure_step
  cleanup-IsLate n e unmounts m cleans at due here = rw here (cleaned-IsLate n e m at due)
  cleanup-IsLate n e (runs_effect o) m cleans at due here =
      rw here (run_effect-IsLeft IsLate n o (clean_up (some n) m) (cleaned-IsLate n e m at due))
  cleanup-IsLate n e (adds h) m cleans at due here = absurd (false≢true cleans)
  cleanup-IsLate n e (alters k text font line_height width) m cleans at due here =
      absurd (false≢true cleans)
  cleanup-IsLate n e (loads k) m cleans at due here = absurd (false≢true cleans)
  cleanup-IsLate n e (resizes k) m cleans at due here = absurd (false≢true cleans)

  -- The fonts load for a run that is late.
  loads-IsConnected :
      (n : ℕ) (m : Measured Handle Px)
      → IsLeft IsLate n m.mounted m.effects
      → let d = measure_step prepare layout parse_line_height (loads n) m in
        IsLeft IsConnected n d.mounted d.effects
  unfolding measure_step fonts_loaded relayout observe
  loads-IsConnected n m l = elim l.holds [
    | inl due ↦
        rw (l.made, due)
          (record {
            effect = observe l.effect;
            made = get_elem?-modify_same m.effects n observe l.made;
            holds = observe-IsConnected l.effect;
            apart = l.apart;
          })
    | inr connected ↦
        rw (l.made, connected.1)
          (record { effect = l.effect; made = l.made; holds = connected; apart = l.apart })
  ]

  -- The fonts load, sooner or later, for a run that is late.
  late-IsConnected :
      (n : ℕ) (between after : List (MeasureInput Px)) (m : Measured Handle Px)
      → IsLeft IsLate n m.mounted m.effects
      → let d = measure_run prepare layout parse_line_height (between ++ loads n ∷ after) m in
        IsLeft IsConnected n d.mounted d.effects
  unfolding measure_run
  late-IsConnected n [] after m l =
      measure_run-IsLeft IsConnected n prepare layout parse_line_height (λ e c. c) after _
        (loads-IsConnected n m l)
  late-IsConnected n (i ∷ between) after m l =
      late-IsConnected n between after _
        (measure_step-IsLeft IsLate n prepare layout parse_line_height (λ e c. inr c) i m l)

  -- If a run of the effect is cleaned up while it waits for the fonts, because the effect runs again
  -- or because the component goes away, and the fonts load later, its observer is connected from then
  -- on, whatever happens in between and whatever happens next.
  pub late_fonts_observe :
      (n : ℕ) (e : Effect) (m : Measured Handle Px) (i : MeasureInput Px)
      (between after : List (MeasureInput Px))
      → is_cleanup i ≡ true
      → get_elem? m.effects n ≡ some e
      → e.is_due ≡ true
      → m.mounted ≡ some n
      → (d : Effect) × (get_elem?
            (measure_run prepare layout parse_line_height
              (i ∷ between ++ loads n ∷ after)
              m).effects
            n
          ≡ some d)
        × (d.ro ≡ observing)
  unfolding measure_run
  late_fonts_observe n e m i between after cleans at due here =
      let l = late-IsConnected n between after _ (cleanup-IsLate n e i m cleans at due here) in
      (l.effect, l.made, l.holds.0)
