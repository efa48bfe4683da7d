-- ===== src/Landing/Bounds.antt =====
-- The state of the page as its inputs change it.
use Prim.Native.Nat.{ℕ, ◌+◌, ◌-◌, ◌%◌, ◌≤◌, ◌<◌}
use mathlib.Core.Path.{◌≡◌, refl}
use mathlib.Core.Logic.{inl, inr}
use mathlib.Core.Bool.{Bool, true, false}
use mathlib.Core.List.{List, [], ◌∷◌}
use native.Mathlib.Omega.{arith}
use ai_with_mafia.Common.Tests.{if◌then◌else◌, Bool-cases, or_else}
use ai_with_mafia.Landing.{
  Counter, initial_counter, start_counter, counter_frame, LandingState, initial_landing,
  LandingInput, mounts, observes, feed_ticks, paints, stats_part, roles_part, steps_part, feed_part,
  ai_part, cta_part, Part, show_part, landing_step, landing_run,
}
use ai_with_mafia.Landing.Counters.{eased_value_bounds}

-- The offset is one of the entries'; a counter is at most its target, and at zero until the
-- statistics are visible.
record Bounded (visible : Bool) (offset : ℕ) (games win_rate rounds : Counter) : Type 0 where
  in_range : offset < 7
  games_below : games.value ≤ 1247
  win_rate_below : win_rate.value ≤ 58
  rounds_below : rounds.value ≤ 32
  hidden :
      visible ≡ false
      → (games ≡ initial_counter) × (win_rate ≡ initial_counter) × (rounds ≡ initial_counter)

abbrev IsLanding : LandingState → Type 0
IsLanding s = Bounded s.stats_visible s.feed_offset s.games s.win_rate s.rounds

initial_landing-IsLanding : IsLanding initial_landing
unfolding initial_landing
initial_landing-IsLanding = record {
  in_range = omega arith;
  games_below = omega arith;
  win_rate_below = omega arith;
  rounds_below = omega arith;
  hidden = λ h. (refl, refl, refl);
}

counter_frame_below :
    (target duration ts : ℕ) (c : Counter)
    → 0 < duration
    → c.value ≤ target
    → (counter_frame target duration ts c).value ≤ target
unfolding counter_frame
counter_frame_below t d ts c h l = elim (Bool-cases c.waiting) [
  | inl on ↦ rw on (eased_value_bounds t d (ts - or_else c.start ts) 0 h).1
  | inr off ↦ rw off l
]

counter_frame_initial :
    (target duration ts : ℕ) (c : Counter)
    → c ≡ initial_counter
    → counter_frame target duration ts c ≡ initial_counter
unfolding counter_frame
counter_frame_initial t d ts c e = rw e refl

-- Started counters still show what they showed.
start-IsLanding :
    (visible : Bool) (s : LandingState)
    → IsLanding s
    → IsLanding (
        if visible then s else record s {
          stats_visible = true;
          games = start_counter s.games;
          win_rate = start_counter s.win_rate;
          rounds = start_counter s.rounds;
        })
start-IsLanding true s w = w
start-IsLanding false s w = record {
  in_range = w.in_range;
  games_below = w.games_below;
  win_rate_below = w.win_rate_below;
  rounds_below = w.rounds_below;
  hidden = λ h. cc;
}

tick-IsLanding :
    (ticking : Bool) (s : LandingState)
    → IsLanding s
    → IsLanding (if ticking then record s { feed_offset = (s.feed_offset + 1) % 7 } else s)
tick-IsLanding true s w = record {
  in_range = omega arith;
  games_below = w.games_below;
  win_rate_below = w.win_rate_below;
  rounds_below = w.rounds_below;
  hidden = w.hidden;
}
tick-IsLanding false s w = w

show_part-IsLanding : (p : Part) (s : LandingState) → IsLanding s → IsLanding (show_part p s)
show_part-IsLanding stats_part s w = start-IsLanding s.stats_visible s w
show_part-IsLanding roles_part s w = w
show_part-IsLanding steps_part s w = w
show_part-IsLanding feed_part s w = w
show_part-IsLanding ai_part s w = w
show_part-IsLanding cta_part s w = w

landing_step-IsLanding :
    (i : LandingInput) (s : LandingState) → IsLanding s → IsLanding (landing_step i s)
unfolding landing_step
landing_step-IsLanding mounts s w = w
landing_step-IsLanding (observes p false) s w = w
landing_step-IsLanding (observes p true) s w = show_part-IsLanding p s w
landing_step-IsLanding feed_ticks s w = tick-IsLanding s.feed_in_view s w
landing_step-IsLanding (paints ts) s w = record {
  in_range = w.in_range;
  games_below = counter_frame_below 1247 1600 ts s.games (omega arith) w.games_below;
  win_rate_below = counter_frame_below 58 1200 ts s.win_rate (omega arith) w.win_rate_below;
  rounds_below = counter_frame_below 32 1000 ts s.rounds (omega arith) w.rounds_below;
  hidden = λ h. (
    counter_frame_initial 1247 1600 ts s.games (w.hidden h).0,
    counter_frame_initial 58 1200 ts s.win_rate (w.hidden h).1,
    counter_frame_initial 32 1000 ts s.rounds (w.hidden h).2,
  );
}

landing_run-IsLanding :
    (is : List LandingInput) (s : LandingState) → IsLanding s → IsLanding (landing_run is s)
unfolding landing_run
landing_run-IsLanding [] s w = w
landing_run-IsLanding (i ∷ is) s w =
    landing_run-IsLanding is (landing_step i s) (landing_step-IsLanding i s w)

reached-IsLanding : (is : List LandingInput) → IsLanding (landing_run is initial_landing)
reached-IsLanding is = landing_run-IsLanding is initial_landing initial_landing-IsLanding
