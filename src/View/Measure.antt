-- ===== src/View/Measure.antt =====
-- The effect that gives a heading the height that its text takes, in
-- frontend/src/components/PhaseHeader.tsx, pages/LobbyPage.tsx and pages/LandingPage.tsx. Measuring
-- (`prepare`, `layout`) and `parseFloat` are parameters.
pub mod Late
pub mod Leaks
use Prim.Native.Nat.{ℕ}
use Prim.Native.String.{String}
use mathlib.Core.Bool.{Bool, true, false}
use mathlib.Core.Option.{Option, none, some}
use mathlib.Core.List.{List, [], ◌∷◌, ◌++◌}
use ai_with_mafia.Common.Tests.{if◌then◌else◌, eqb}
use ai_with_mafia.Common.Lists.{length, get_elem?, modify}

-- An element on the page: its text, what its computed style says, and the height that is set.
pub record Heading {ℓ} (Px : Type ℓ) : Type ℓ where
  pub text : String
  pub font : String
  pub line_height : String
  pub client_width : Px
  pub height : Option Px

-- The variable `ro`.
pub data Observer : Type 0 where
  no_observer observing disconnected : Observer

-- One run of the effect: the element it found, whether the callback that it has put on
-- `document.fonts.ready` is still to come, and its observer.
pub record Effect : Type 0 where
  pub el : ℕ
  pub is_due : Bool
  pub ro : Observer

-- The elements made so far, the prepared text, and the runs of the effect, of which the last may
-- still be mounted. Elements and runs are named by their index.
pub record Measured {ℓ} (Handle Px : Type ℓ) : Type ℓ where
  pub headings : List (Heading Px)
  pub handle : Option Handle
  pub effects : List Effect
  pub mounted : Option ℕ

-- `ro?.disconnect()`
abbrev pub disconnect_observer : Observer → Observer
disconnect_observer no_observer = no_observer
disconnect_observer observing = disconnected
disconnect_observer disconnected = disconnected

abbrev pub is_observing : Observer → Bool
is_observing observing = true
is_observing _ = false

unfoldable pub disconnect_effect : Effect → Effect
disconnect_effect e = record e { ro = disconnect_observer e.ro }

unfoldable pub observe : Effect → Effect
observe e = record e { is_due = false; ro = observing }

abbrev pub observes : ℕ → Effect → Bool
observes k e = if is_observing e.ro then eqb e.el k else false

-- What happens: a render adds an element or changes one, the effect runs again with the element in
-- its ref (none if the component shows none), the component goes away, the fonts have loaded for
-- the callback of a run, and an element is resized.
pub data MeasureInput {ℓ} (Px : Type ℓ) : Type ℓ where
  adds : Heading Px → MeasureInput Px
  alters : ℕ → String → String → String → Px → MeasureInput Px
  runs_effect : Option ℕ → MeasureInput Px
  unmounts : MeasureInput Px
  loads : ℕ → MeasureInput Px
  resizes : ℕ → MeasureInput Px

module _ {ℓ} {Handle Px : Type ℓ} where
  unfoldable pub initial_measured : Measured Handle Px
  initial_measured = record { headings = []; handle = none; effects = []; mounted = none }

  -- The cleanup of the run that is mounted.
  unfoldable pub clean_up : Option ℕ → Measured Handle Px → Measured Handle Px
  unfolding disconnect_effect
  clean_up none m = m
  clean_up (some n) m = record m { effects = modify m.effects n disconnect_effect; mounted = none }

  -- The body of the effect. Without an element it ends before it waits, and has no cleanup.
  unfoldable pub run_effect : Option ℕ → Measured Handle Px → Measured Handle Px
  run_effect none m = m
  run_effect (some k) m = record m {
    effects = m.effects ++ record { el = k; is_due = true; ro = no_observer } ∷ [];
    mounted = some (length m.effects);
  }

  module _ (prepare : String → String → Handle) (layout : Handle → Px → Px → Px)
      (parse_line_height : String → Px) where
    abbrev pub fit : Option Handle → Heading Px → Heading Px
    fit none h = h
    fit (some handle) h = record h {
      height = some (layout handle h.client_width (parse_line_height h.line_height));
    }

    unfoldable pub relayout : ℕ → Measured Handle Px → Measured Handle Px
    relayout k m = record m { headings = modify m.headings k (fit m.handle) }

    abbrev pub prepared : Option (Heading Px) → Option Handle → Option Handle
    prepared none old = old
    prepared (some h) old = some (prepare h.text h.font)

    -- The callback of a run.
    unfoldable pub fonts_loaded : ℕ → Option Effect → Measured Handle Px → Measured Handle Px
    unfolding relayout observe
    fonts_loaded n none m = m
    fonts_loaded n (some e) m =
        if e.is_due
        then relayout e.el (record m {
          handle = prepared (get_elem? m.headings e.el) m.handle;
          effects = modify m.effects n observe;
        })
        else m

    -- Every observer of the element calls its `relayout`.
    unfoldable pub notify : ℕ → List Effect → Measured Handle Px → Measured Handle Px
    unfolding relayout
    notify k [] m = m
    notify k (e ∷ es) m = notify k es (if observes k e then relayout k m else m)

    unfoldable pub measure_step : MeasureInput Px → Measured Handle Px → Measured Handle Px
    unfolding clean_up run_effect fonts_loaded notify
    measure_step (adds h) m = record m { headings = m.headings ++ h ∷ [] }
    measure_step (alters k text font line_height width) m = record m {
      headings = modify m.headings k (λ h. record h {
        text = text;
        font = font;
        line_height = line_height;
        client_width = width;
      });
    }
    measure_step (runs_effect o) m = run_effect o (clean_up m.mounted m)
    measure_step unmounts m = clean_up m.mounted m
    measure_step (loads n) m = fonts_loaded n (get_elem? m.effects n) m
    measure_step (resizes k) m = notify k m.effects m

    unfoldable pub measure_run : List (MeasureInput Px) → Measured Handle Px → Measured Handle Px
    unfolding measure_step
    measure_run [] m = m
    measure_run (i ∷ is) m = measure_run is (measure_step i m)

-- `parseFloat(getComputedStyle(el).lineHeight) || 66`, in LandingPage.tsx.
unfoldable pub hero_line_height {ℓ} : {Px : Type ℓ} → (String → Px) → (Px → Bool) → Px → String → Px
hero_line_height parse_float is_falsy fallback line_height =
    let px = parse_float line_height in if is_falsy px then fallback else px
