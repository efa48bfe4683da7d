-- ===== src/Tests/Session.antt =====
-- A client in a running game: what it holds, and what a click in its action panel sends.
use mathlib.Core.Path.{◌≡◌, refl}
use mathlib.Core.Bool.{true, false}
use mathlib.Core.Option.{none, some}
use mathlib.Core.List.{List, [], ◌∷◌}
use Prim.Native.String.{String}
use ai_with_mafia.Common.Lists.{All}
use ai_with_mafia.Common.Assoc.{lookup}
use ai_with_mafia.Types.{
  WsEvent, initial_state, vote, kill, player_left, mafia, unassigned, phase_change, day_vote,
}
use ai_with_mafia.Store.State.{Socket, ready, initial_client}
use ai_with_mafia.Store.Board.{Board, hear_all}
use ai_with_mafia.Store.Board.Represents.{Represents}
use ai_with_mafia.Store.Steps.{run}
use ai_with_mafia.Store.Steps.Session.{IsOpen, deliver, events, run-Represents, snapshot_resyncs}
use ai_with_mafia.View.Dom.{clicks, kill_click}
use ai_with_mafia.View.GameRoom.{action_panel}
use ai_with_mafia.View.GameRoom.Acts.{SendsOne, action_panel-SendsOne}
use ai_with_mafia.View.VotePanel.{targets}
use ai_with_mafia.Tests.Data.{client_runs, here, joined, seated, table, snapshot}

abbrev open_socket : Socket
open_socket = record {
  url = "wss://mafia.example/ws/rooms/r1?token=t";
  ready_state = ready;
  has_onclose = true;
  sent = [];
}

-- The night falls over Bob, who then leaves.
abbrev night_falls : List (String × WsEvent)
night_falls =
    ("m1", initial_state table (some snapshot) mafia)
    ∷ ("m2", phase_change day_vote (some 3) none none)
    ∷ ("m3", vote (some "ann") (some "bob") none none)
    ∷ ("m4", kill "bob" none none)
    ∷ ("m5", player_left "bob" "Bob")
    ∷ []

abbrev empty_board : Board
empty_board = record {
  me = "ann";
  role = unassigned;
  status = none;
  roster = λ j. none;
  is_living = λ j. false;
  ballot = λ j. none;
  phase = none;
  round = 0;
  result = none;
}

joined-IsOpen : IsOpen (run here joined initial_client) 0
unfolding client_runs
joined-IsOpen = record { socket = open_socket; here = refl; open_now = refl }

seated-IsOpen : IsOpen (run here seated initial_client) 0
unfolding client_runs
seated-IsOpen = record { socket = open_socket; here = refl; open_now = refl }

joined-Represents : Represents (run here joined initial_client).store empty_board
unfolding client_runs lookup
joined-Represents = record {
  me = refl;
  role = refl;
  status = refl;
  roster = λ j. refl;
  living = λ j. refl;
  ballot = λ j. refl;
  phase = refl;
  round = refl;
  result = refl;
}

run-Represents_example :
    Represents
      (run here (deliver 0 night_falls) (run here joined initial_client)).store
      (hear_all (events night_falls) empty_board)
run-Represents_example =
    run-Represents here 0 night_falls (run here joined initial_client) empty_board joined-IsOpen
      joined-Represents

snapshot_resyncs_example :
    (b : Board) × Represents
      (run here
        (deliver 0 (("m8", initial_state table (some snapshot) mafia) ∷ night_falls))
        (run here joined initial_client)).store
      b
    × Represents
        (run here
          (deliver 0 (("m9", initial_state table (some snapshot) mafia) ∷ night_falls))
          (run here seated initial_client)).store
        b
unfolding client_runs
snapshot_resyncs_example =
    snapshot_resyncs here 0 0 "m8" "m9" table (some snapshot) mafia night_falls
      (run here joined initial_client) (run here seated initial_client) joined-IsOpen seated-IsOpen
      refl refl

action_panel-SendsOne_example :
    All
      (SendsOne (run here seated initial_client) 0 open_socket)
      (clicks (action_panel (run here seated initial_client).store))
unfolding client_runs
action_panel-SendsOne_example =
    action_panel-SendsOne (run here seated initial_client) 0 open_socket refl refl refl table refl

-- The panel of that client offers to kill Bob.
seated_offers : clicks (action_panel (run here seated initial_client).store) ≡ kill_click "bob" ∷ []
unfolding client_runs clicks action_panel targets
seated_offers = refl
