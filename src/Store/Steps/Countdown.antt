-- ===== src/Store/Steps/Countdown.antt =====
-- The clock of a phase: it counts down by one a second, and stops by itself.
use Prim.Native.Nat.{ℕ, zero, suc, ◌-◌, ◌≤◌}
use Prim.Native.String.{String}
use mathlib.Core.Path.{◌≡◌, refl, ap}
use mathlib.Core.Option.{Option, none, some}
use mathlib.Core.List.{List, [], ◌∷◌}
use native.Mathlib.Nat.{sub-zero, suc-sub-suc}
use native.Mathlib.Omega.{arith}
use ai_with_mafia.Types.{Phase, phase_change}
use ai_with_mafia.Store.State.{Client, OverlayItem}
use ai_with_mafia.Store.Timer.{start_timer, tick}
use ai_with_mafia.Store.Overlay.{push_overlay, build_phase_overlay}
use ai_with_mafia.Store.Connection.{Location}
use ai_with_mafia.Store.Events.{on_event, change_phase, push_overlay_if}
use ai_with_mafia.Store.Steps.{Input, ticks, step, run}
use ai_with_mafia.Store.Steps.Frames.{IsClocked, drop_interval-nil}

-- The clock with id `t` runs, and shows `n` seconds.
pub record Shows (t n : ℕ) (c : Client) : Type 0 where
  pub held : c.timer_interval ≡ some t
  pub running : c.intervals ≡ t ∷ []
  pub shown : c.store.timer_remaining_sec ≡ n

-- The clock has stopped at zero.
pub record HasStopped (c : Client) : Type 0 where
  pub let_go : c.timer_interval ≡ none
  pub stopped : c.intervals ≡ []
  pub shown : c.store.timer_remaining_sec ≡ 0

step-Shows :
    (loc : Location) (t n : ℕ) (c : Client) → Shows t (suc n) c → Shows t n (step loc (ticks t) c)
unfolding step tick
step-Shows loc t n c s = ground (arith, s.held, s.running, s.shown)

step-HasStopped :
    (loc : Location) (t : ℕ) (c : Client) → Shows t 0 c → HasStopped (step loc (ticks t) c)
unfolding step tick
step-HasStopped loc t c s = ground (arith, s.held, s.running, s.shown)

-- `n` seconds pass.
abbrev pub seconds : ℕ → ℕ → List Input
seconds t zero = []
seconds t (suc n) = ticks t ∷ seconds t n

run-Shows :
    (loc : Location) (t n k : ℕ) (c : Client)
    → k ≤ n
    → Shows t n c
    → Shows t (n - k) (run loc (seconds t k) c)
unfolding run
run-Shows loc t n zero c h s = rw sub-zero s
run-Shows loc t zero (suc k) c h s = absurd (omega arith)
run-Shows loc t (suc n) (suc k) c h s =
    rw suc-sub-suc
      (run-Shows loc t n k (step loc (ticks t) c) (omega arith) (step-Shows loc t n c s))

run-HasStopped :
    (loc : Location) (t n : ℕ) (c : Client)
    → Shows t n c
    → HasStopped (run loc (seconds t (suc n)) c)
unfolding run
run-HasStopped loc t zero c s = step-HasStopped loc t c s
run-HasStopped loc t (suc n) c s =
    run-HasStopped loc t n (step loc (ticks t) c) (step-Shows loc t n c s)

start_timer-Shows : (n : ℕ) (c : Client) → IsClocked c → Shows c.next_timer n (start_timer n c)
unfolding start_timer
start_timer-Shows n c h = record {
  held = refl;
  running = ap (◌∷◌ c.next_timer) (drop_interval-nil c h);
  shown = refl;
}

push_overlay_if-Shows :
    (o : Option OverlayItem) (t n : ℕ) (c : Client) → Shows t n c → Shows t n (push_overlay_if o c)
unfolding push_overlay
push_overlay_if-Shows none t n c s = s
push_overlay_if-Shows (some o) t n c s = record {
  held = s.held;
  running = s.running;
  shown = s.shown;
}

-- A phase that lasts `n` seconds starts a new clock, also when another was running: after `k`
-- seconds, for `k` up to `n`, it shows `n - k`, and one second after it shows zero it has stopped.
pub phase_countdown :
    (loc : Location) (m : String) (phase : Phase) (round : Option ℕ) (n k : ℕ)
    (alive : Option (List String)) (c : Client)
    → IsClocked c
    → k ≤ n
    → let d = on_event m (phase_change phase round (some n) alive) c in
      Shows c.next_timer (n - k) (run loc (seconds c.next_timer k) d)
      × HasStopped (run loc (seconds c.next_timer (suc n)) d)
unfolding on_event
phase_countdown loc m phase round n k alive c h le =
    let started = start_timer-Shows n (change_phase phase round alive c) h in
    let s =
      push_overlay_if-Shows (build_phase_overlay phase round c.store.my_role) c.next_timer n _
        started in
    (run-Shows loc c.next_timer n k _ le s, run-HasStopped loc c.next_timer n _ s)
