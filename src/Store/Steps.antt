-- ===== src/Store/Steps.antt =====
-- The client among its callers: what the components, the browser and the server make it do, one
-- input after another. The browser's part follows the documents of WebSocket and of the timers: a
-- socket opens once, delivers frames only while it is open, reports its close once, and a timer
-- fires only while it is pending. An input that the browser cannot produce changes nothing.
pub mod Link
pub mod Frames
pub mod Sockets
pub mod Wiring
pub mod Safety
pub mod Attempts
pub mod Sent
pub mod Delay
pub mod Idle
pub mod Kept
pub mod History
pub mod Roster
pub mod Session
pub mod Room
pub mod Countdown
use Prim.Native.Nat.{ℕ}
use Prim.Native.String.{String}
use mathlib.Core.Bool.{Bool, true, false}
use mathlib.Core.Option.{Option, none, some}
use mathlib.Core.List.{List, [], ◌∷◌}
use ai_with_mafia.Common.Tests.{if◌then◌else◌, eqb}
use ai_with_mafia.Common.Lists.{get_elem?, modify, filter, any}
use ai_with_mafia.Store.State.{Client, GameStore, Socket, ReadyState, opening, ready, shut, Payload}
use ai_with_mafia.Store.Timer.{clear_timeout, tick}
use ai_with_mafia.Store.Overlay.{shift_overlay}
use ai_with_mafia.Store.Events.{Frame, on_message}
use ai_with_mafia.Store.Updates.{with_store}
use ai_with_mafia.Store.Connection.{
  Location, connect, imported, token_ready, is_ready, on_open, on_close, reconnect, disconnect,
  send_action,
}

-- What runs a part of gameStore.ts: `connect`, `disconnect`, `sendAction` and `shiftOverlay` called by
-- a component; `connect` behind its two awaits; `onopen`, `onmessage` and `onclose` of a socket; the
-- callbacks of the `setTimeout` in `onclose` and of the `setInterval` in `startTimer`.
pub data Input : Type 0 where
  -- actions of the components
  connects : String → Input
  disconnects : Input
  sends : String → Payload → Input
  shifts : Input
  clears_result : Input
  -- the waits of `connect`: the import, the token, and a rejected promise
  imports : ℕ → String → Input
  tokens : ℕ → String → Input
  rejects : ℕ → Input
  -- callbacks of a socket
  opens : ℕ → Input
  receives : ℕ → String → Frame → Input
  closes : ℕ → Input
  -- callbacks of the timers
  expires : ℕ → Input
  ticks : ℕ → Input

abbrev pub set_ready_state : ℕ → ReadyState → Client → Client
set_ready_state h st c = record c {
  sockets = modify c.sockets h (λ s. record s { ready_state = st });
}

abbrev pub is_opening : ReadyState → Bool
is_opening opening = true
is_opening _ = false

abbrev pub is_shut : ReadyState → Bool
is_shut shut = true
is_shut _ = false

unfoldable pub socket_opens : ℕ → Option Socket → Client → Client
unfolding on_open
socket_opens h none c = c
socket_opens h (some s) c =
    if is_opening s.ready_state then on_open (set_ready_state h ready c) else c

unfoldable pub socket_receives : String → Frame → Option Socket → Client → Client
socket_receives msg_id frame none c = c
socket_receives msg_id frame (some s) c =
    if is_ready s.ready_state then on_message msg_id frame c else c

unfoldable pub socket_closes : ℕ → Option Socket → Client → Client
unfolding on_close
socket_closes h none c = c
socket_closes h (some s) c =
    if is_shut s.ready_state
    then c
    else if s.has_onclose
    then on_close (set_ready_state h shut c)
    else set_ready_state h shut c

-- `useGameStore.setState({ result: null })`, which ResultOverlay calls after a restart.
unfoldable pub clear_result : GameStore → GameStore
clear_result s = record s { result = none }

-- The part of gameStore.ts that an input runs, if the browser can produce the input.
unfoldable pub step : Location → Input → Client → Client
unfolding socket_opens socket_receives socket_closes clear_result any filter clear_timeout
step loc (connects room_id) c = connect room_id c
step loc disconnects c = disconnect c
step loc (sends kind payload) c = send_action kind payload c
step loc shifts c = with_store shift_overlay c
step loc clears_result c = with_store clear_result c
step loc (imports g player_id) c = imported g player_id c
step loc (tokens g token) c = token_ready loc g token c
step loc (rejects g) c = record c {
  attempts = filter (λ a. if eqb a.generation g then false else true) c.attempts;
}
step loc (opens h) c = socket_opens h (get_elem? c.sockets h) c
step loc (receives h msg_id frame) c = socket_receives msg_id frame (get_elem? c.sockets h) c
step loc (closes h) c = socket_closes h (get_elem? c.sockets h) c
step loc (expires t) c =
    if any (λ e. eqb e.0 t) c.timeouts
    then reconnect (record c { timeouts = clear_timeout t c.timeouts })
    else c
step loc (ticks t) c = if any (λ i. eqb i t) c.intervals then tick c else c

unfoldable pub run : Location → List Input → Client → Client
unfolding step
run loc [] c = c
run loc (i ∷ is) c = run loc is (step loc i c)
