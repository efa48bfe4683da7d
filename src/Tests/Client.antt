-- ===== src/Tests/Client.antt =====
-- The connection and its runs.
use Prim.Native.Nat.{ℕ}
use mathlib.Core.Path.{◌≡◌, refl}
use mathlib.Core.Logic.{◌⊎◌}
use mathlib.Core.Bool.{false, true}
use mathlib.Core.Option.{none, some}
use mathlib.Core.List.{List, [], ◌∷◌}
use native.Mathlib.Omega.{arith}
use ai_with_mafia.Common.Lists.{filter, get_elem?, any}
use ai_with_mafia.Types.{connected, night}
use ai_with_mafia.Store.State.{
  Client, Socket, initial_client, ready, Attempt, awaiting_token, vote_payload,
}
use ai_with_mafia.Store.Connection.{token_ready, disconnect}
use ai_with_mafia.Store.Events.{on_event, event}
use ai_with_mafia.Types.{phase_change, player_joined, player_left}
use ai_with_mafia.Store.Steps.{Input, run, sends, closes, expires, imports, connects, receives}
use ai_with_mafia.Store.Steps.Link.{link, is_over, IsAwaited}
use ai_with_mafia.Store.Steps.Frames.{IsClocked}
use ai_with_mafia.Store.Steps.Safety.{single_live, single_reconnect, single_clock}
use ai_with_mafia.Store.Steps.Idle.{IsIdle, disconnect_final}
use ai_with_mafia.Store.Steps.Delay.{fired, run-delay}
use ai_with_mafia.Store.Steps.Attempts.{IsOpened, IsUntouched, stale_attempt, disconnect_reopens}
use ai_with_mafia.Store.Steps.Sent.{HasSent, frames_on, run-HasSent}
use ai_with_mafia.Store.Steps.Countdown.{Shows, HasStopped, seconds, phase_countdown}
use ai_with_mafia.Store.Steps.Roster.{run-IsUnique}
use ai_with_mafia.Store.Events.Players.{IsUnique}
use ai_with_mafia.Store.Steps.History.{Extends, log, run-Extends}
use ai_with_mafia.Tests.Data.{client_runs, here, joined, seated, lost, overtaken, finished_game}

abbrev room_socket : Socket
room_socket = record {
  url = "wss://mafia.example/ws/rooms/r1?token=t";
  ready_state = ready;
  has_onclose = true;
  sent = [];
}

joined_runs :
    ((run here joined initial_client).store.ws_status ≡ connected)
    × (get_elem? (run here joined initial_client).sockets 0 ≡ some room_socket)
    × ((run here joined initial_client).ws ≡ some 0)
unfolding client_runs
joined_runs = (refl, refl, refl)

single_live_example : (run here joined initial_client).ws ≡ some 0
unfolding client_runs
single_live_example = single_live here joined 0 room_socket refl refl

single_reconnect_example :
    let c = run here lost initial_client in (c.timeouts ≡ []) ⊎ ((t d : ℕ) × IsAwaited (link c) t d)
single_reconnect_example = single_reconnect here lost

single_clock_example : IsClocked (run here seated initial_client)
single_clock_example = single_clock here seated

disconnect_final_example :
    let c = run here (closes 0 ∷ expires 0 ∷ []) (disconnect (run here seated initial_client)) in
    IsIdle c
    × ((h : ℕ) (s : Socket) → get_elem? c.sockets h ≡ some s → is_over s.ready_state ≡ true)
unfolding client_runs
disconnect_final_example =
    disconnect_final here seated (closes 0 ∷ expires 0 ∷ []) refl (refl, (refl, tt))

run-delay_example :
    (run here (expires 0 ∷ []) (run here lost initial_client)).reconnect_delay ≡ 2000
unfolding client_runs fired
run-delay_example =
    run-delay here (expires 0 ∷ []) (run here lost initial_client) (omega arith) (refl, tt)

stale_attempt_example :
    let c = run here overtaken initial_client in
    IsUntouched c [] false (token_ready here 1 "late" c)
unfolding client_runs filter
stale_attempt_example = stale_attempt here 1 "late" (run here overtaken initial_client) (λ e. cc e)

abbrev old_attempt : Attempt
old_attempt = record { generation = 1; room_id = "r1"; stage = awaiting_token "ann" }

abbrev leaving : Client
leaving = run here (connects "r1" ∷ imports 1 "ann" ∷ []) initial_client

disconnect_reopens_example : IsOpened here "r1" "t" 0 (token_ready here 1 "t" (disconnect leaving))
unfolding client_runs
disconnect_reopens_example =
    disconnect_reopens here 1 "t" "ann" leaving old_attempt refl refl refl (λ e. cc e)

-- Bob gets a vote before the socket closes, and none after.
abbrev votes_around_close : List Input
votes_around_close =
    sends "vote" (vote_payload "bob") ∷ closes 0 ∷ sends "vote" (vote_payload "bob") ∷ []

run-HasSent_example :
    HasSent 0
      (record { kind = "vote"; payload = vote_payload "bob" } ∷ [])
      (run here votes_around_close (run here joined initial_client)).sockets
unfolding client_runs frames_on
run-HasSent_example =
    run-HasSent here 0 votes_around_close [] (run here joined initial_client)
      (record { socket = room_socket; here = refl; sent = refl })

phase_countdown_example :
    let c = run here seated initial_client in
    let d = on_event "m" (phase_change night (some 2) (some 30) none) c in
    Shows c.next_timer 20 (run here (seconds c.next_timer 10) d)
    × HasStopped (run here (seconds c.next_timer 31) d)
unfolding client_runs
phase_countdown_example =
    phase_countdown here "m" night (some 2) 30 10 none (run here seated initial_client) refl
      (omega arith)

run-Extends_example :
    Extends
      (log (run here seated initial_client))
      (log (run here finished_game (run here seated initial_client)))
run-Extends_example = run-Extends here finished_game (run here seated initial_client)

-- Somebody joins, twice, and Bob leaves.
abbrev visitors : List Input
visitors =
    receives 0 "m2" (event (player_joined "cyd" "Cyd"))
    ∷ receives 0 "m3" (event (player_joined "cyd" "Cyd"))
    ∷ receives 0 "m4" (event (player_left "bob" "Bob"))
    ∷ []

run-IsUnique_example : IsUnique (run here visitors (run here seated initial_client)).store.room
unfolding client_runs any
run-IsUnique_example =
    run-IsUnique here visitors (run here seated initial_client) (tt, (tt, (tt, tt)))
      (refl, (refl, tt))
