-- ===== src/Tests/Data.antt =====
-- The inputs of the tests: a host, two rooms and a few scripts.
use mathlib.Core.Bool.{true, false}
use mathlib.Core.Option.{none, some}
use mathlib.Core.List.{List, [], ◌∷◌}
use ai_with_mafia.Types.{
  Player, Room, playing, private, mafia, GameOverResult, citizen_win, game_over, initial_state,
  night, GameSnapshot,
}
use ai_with_mafia.Store.State.{initial_client}
use ai_with_mafia.Store.Connection.{
  Location, connect, imported, token_ready, reconnect, disconnect, send_action, on_open, on_close,
}
use ai_with_mafia.Store.Events.{event, on_message}
use ai_with_mafia.Store.Overlay.{shift_overlay}
use ai_with_mafia.Store.Timer.{tick}
use ai_with_mafia.Store.Steps.{Input, connects, imports, tokens, opens, receives, closes, run}

-- On an `unfolding` line it opens all that a run of the client calls.
unfoldable pub client_runs : Unit {0}
unfolding run connect imported token_ready reconnect disconnect send_action on_open on_close
    on_message tick shift_overlay initial_client
client_runs = tt

abbrev pub here : Location
here = record { protocol = "https:"; host = "mafia.example" }

abbrev pub ann : Player
ann = record { id = "ann"; name = "Ann"; is_alive = true; is_ai = false }

abbrev pub bob : Player
bob = record { id = "bob"; name = "Bob"; is_alive = true; is_ai = true }

abbrev pub table : Room
table = record {
  id = "r1";
  name = "Table";
  status = playing;
  host_id = "ann";
  visibility = private;
  join_code = some "ABCDEF";
  max_humans = 6;
  players = ann ∷ bob ∷ [];
}

abbrev pub snapshot : GameSnapshot
snapshot = record {
  phase = night;
  round = 2;
  timer_remaining_sec = 30;
  alive_player_ids = "ann" ∷ "bob" ∷ [];
  votes = [];
}

abbrev pub over : GameOverResult
over = record { winner = citizen_win; round = 3; duration_sec = 600; players = []; reason = none }

-- The client connects to a room.
abbrev pub joined : List Input
joined = connects "r1" ∷ imports 1 "ann" ∷ tokens 1 "t" ∷ opens 0 ∷ []

-- It enters a running game.
abbrev pub seated : List Input
seated =
    connects "r1"
    ∷ imports 1 "ann"
    ∷ tokens 1 "t"
    ∷ opens 0
    ∷ receives 0 "m1" (event (initial_state table (some snapshot) mafia))
    ∷ []

-- The connection is lost, and the client waits to reconnect.
abbrev pub lost : List Input
lost = connects "r1" ∷ imports 1 "ann" ∷ tokens 1 "t" ∷ opens 0 ∷ closes 0 ∷ []

-- An attempt waits for its token while a newer one has opened its socket.
abbrev pub overtaken : List Input
overtaken =
    connects "r1" ∷ imports 1 "ann" ∷ connects "r2" ∷ imports 2 "ann" ∷ tokens 2 "t" ∷ opens 0 ∷ []

-- The game ends.
abbrev pub finished_game : List Input
finished_game =
    connects "r1"
    ∷ imports 1 "ann"
    ∷ tokens 1 "t"
    ∷ opens 0
    ∷ receives 0 "m1" (event (initial_state table (some snapshot) mafia))
    ∷ receives 0 "m2" (event (game_over over))
    ∷ []
