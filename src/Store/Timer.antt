-- ===== src/Store/Timer.antt =====
-- The timers of gameStore.ts: `clearReconnectTimer`, `clearTimerInterval`, `startTimer`.
use Prim.Native.Nat.{ℕ, ◌+◌, ◌-◌}
use mathlib.Core.Bool.{not}
use mathlib.Core.Option.{Option, none, some}
use mathlib.Core.List.{List, ◌∷◌}
use ai_with_mafia.Common.Tests.{eqb, if◌then◌else◌}
use ai_with_mafia.Common.Lists.{filter}
use ai_with_mafia.Store.State.{Client}

-- `clearTimeout` and `clearInterval`: an id that is not pending is ignored.
unfoldable pub clear_timeout : ℕ → List (ℕ × ℕ) → List (ℕ × ℕ)
unfolding filter
clear_timeout i = filter (λ t. not (eqb t.0 i))

unfoldable pub clear_interval : ℕ → List ℕ → List ℕ
unfolding filter
clear_interval i = filter (λ t. not (eqb t i))

abbrev pub drop_timeout : Option ℕ → List (ℕ × ℕ) → List (ℕ × ℕ)
drop_timeout none ts = ts
drop_timeout (some i) ts = clear_timeout i ts

abbrev pub drop_interval : Option ℕ → List ℕ → List ℕ
drop_interval none ts = ts
drop_interval (some i) ts = clear_interval i ts

unfoldable pub clear_reconnect_timer : Client → Client
unfolding clear_timeout
clear_reconnect_timer c = record c {
  timeouts = drop_timeout c.reconnect_timer c.timeouts;
  reconnect_timer = none;
}

unfoldable pub clear_timer_interval : Client → Client
unfolding clear_interval
clear_timer_interval c = record c {
  intervals = drop_interval c.timer_interval c.intervals;
  timer_interval = none;
}

unfoldable pub set_remaining : ℕ → Client → Client
set_remaining sec c = record c { store = record (c.store) { timer_remaining_sec = sec } }

-- `startTimer`: the old interval goes, and a new one runs each second.
unfoldable pub start_timer : ℕ → Client → Client
unfolding clear_timer_interval set_remaining
start_timer initial_sec c =
    let cleared = set_remaining initial_sec (clear_timer_interval c) in
    record cleared {
      timer_interval = some cleared.next_timer;
      intervals = cleared.next_timer ∷ cleared.intervals;
      next_timer = cleared.next_timer + 1;
    }

-- The interval's callback. The remaining seconds are a natural number, so `current <= 0` is
-- `current === 0`.
unfoldable pub tick : Client → Client
unfolding clear_timer_interval set_remaining
tick c =
    if eqb c.store.timer_remaining_sec 0
    then clear_timer_interval c
    else set_remaining (c.store.timer_remaining_sec - 1) c
