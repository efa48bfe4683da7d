-- ===== src/Tests/Headings.antt =====
-- A heading whose text is measured, with the text itself for what `prepare` makes of it.
use Prim.Native.Nat.{ℕ, ◌+◌}
use Prim.Native.String.{String}
use mathlib.Core.Path.{◌≡◌, refl}
use mathlib.Core.Bool.{true, false}
use mathlib.Core.Option.{none, some}
use mathlib.Core.List.{List, [], ◌∷◌}
use ai_with_mafia.Common.Lists.{get_elem?}
use ai_with_mafia.View.Measure.{
  Heading, Effect, Measured, no_observer, observing, MeasureInput, adds, runs_effect, loads,
  resizes, initial_measured, measure_run,
}
use ai_with_mafia.View.Measure.Leaks.{IsTimely, observes-mounted}
use ai_with_mafia.View.Measure.Late.{late_fonts_observe}

abbrev text_of : String → String → String
text_of text font = text

abbrev two_lines : String → ℕ → ℕ → ℕ
two_lines text width line_height = line_height + line_height

abbrev always_20 : String → ℕ
always_20 line_height = 20

abbrev lobby_heading : Heading ℕ
lobby_heading = record {
  text = "Find your table";
  font = "600 40px serif";
  line_height = "20px";
  client_width = 300;
  height = none;
}

-- The effect runs twice over one element, each time until its fonts have loaded.
abbrev two_runs : List (MeasureInput ℕ)
two_runs =
    adds lobby_heading
    ∷ runs_effect (some 0)
    ∷ loads 0
    ∷ runs_effect (some 0)
    ∷ loads 1
    ∷ resizes 0
    ∷ []

abbrev second_run : Effect
second_run = record { el = 0; is_due = false; ro = observing }

two_runs-IsTimely : IsTimely text_of two_lines always_20 two_runs initial_measured
unfolding IsTimely initial_measured measure_run
two_runs-IsTimely = (λ e. cc, (λ e. refl, (λ e. cc, (λ e. refl, (λ e. cc, (λ e. cc, tt))))))

two_runs-second :
    get_elem? (measure_run text_of two_lines always_20 two_runs initial_measured).effects 1
    ≡ some second_run
unfolding initial_measured measure_run
two_runs-second = refl

observes-mounted_example :
    (measure_run text_of two_lines always_20 two_runs initial_measured).mounted ≡ some 1
observes-mounted_example =
    observes-mounted text_of two_lines always_20 two_runs 1 second_run two_runs-IsTimely
      two_runs-second refl

-- The component goes away before the fonts have loaded.
abbrev waiting_heading : Measured String ℕ
waiting_heading = record {
  headings = lobby_heading ∷ [];
  handle = none;
  effects = record { el = 0; is_due = true; ro = no_observer } ∷ [];
  mounted = some 0;
}

late_fonts_observe_example :
    (d : Effect) × (get_elem?
        (measure_run text_of two_lines always_20
          (runs_effect (some 0) ∷ resizes 0 ∷ loads 0 ∷ loads 1 ∷ [])
          waiting_heading).effects
        0
      ≡ some d)
    × (d.ro ≡ observing)
late_fonts_observe_example =
    late_fonts_observe text_of two_lines always_20 0
      (record { el = 0; is_due = true; ro = no_observer }) waiting_heading (runs_effect (some 0))
      (resizes 0 ∷ []) (loads 1 ∷ []) refl refl refl refl
