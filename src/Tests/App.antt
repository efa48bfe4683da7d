-- ===== src/Tests/App.antt =====
-- A player who signs in, enters a room and goes back to the lobby.
use mathlib.Core.Path.{◌≡◌, refl}
use mathlib.Core.Bool.{true}
use mathlib.Core.Logic.{inl}
use mathlib.Core.Option.{Option, none, some}
use text.Mathlib.Text.{◌==◌}
use ai_with_mafia.Common.Tests.{if◌then◌else◌}
use mathlib.Core.List.{List, [], ◌∷◌, ◌++◌}
use Prim.Native.String.{String}
use ai_with_mafia.Common.Lists.{length, get_elem?}
use ai_with_mafia.Common.Text.{not_empty}
use ai_with_mafia.Types.{initial_state, mafia}
use ai_with_mafia.Store.Events.{event}
use ai_with_mafia.Store.State.{Socket, ready}
use ai_with_mafia.Store.Steps.{imports, opens, receives}
use ai_with_mafia.Store.Steps.Room.{IsAddress}
use ai_with_mafia.Store.Steps.Idle.{IsIdle}
use ai_with_mafia.Auth.{Session, initializes, session, me_replies, me, auth_step, get_access_token}
use ai_with_mafia.View.RoomPage.{should_block}
use ai_with_mafia.Api.{Response, response, json, settle}
use ai_with_mafia.Lobby.{JoinResponse, initial_lobby, join_settled, create_settled, code_settled}
use ai_with_mafia.Routes.{Route, landing_route, lobby_route, room_route}
use ai_with_mafia.App.{
  App, AppInput, goes, confirms, signs, answers, happens, initial_app, app_run, room_of, player,
}
use ai_with_mafia.App.Enter.{IsConnected, journey, entry-IsConnected}
use ai_with_mafia.App.Journey.{Arrives, lobby-Arrives}
use ai_with_mafia.App.Placed.{joined_room}
use ai_with_mafia.App.Sound.{IsPatient}
use ai_with_mafia.App.Safety.{reached, room_page-sockets, other_pages-IsIdle}
use ai_with_mafia.Tests.Data.{client_runs, here, table, snapshot}

abbrev account : Session
account = record { user = "u1"; access_token = "t" }

abbrev signing_in : List AppInput
signing_in =
    signs initializes ∷ signs (session (some account)) ∷ signs (me_replies (me "ann" "Ann")) ∷ []

-- The player goes from the landing page to the lobby and into a room.
abbrev entering : List AppInput
entering =
    signing_in
    ++ goes lobby_route
      ∷ goes (room_route "r1")
      ∷ happens (imports 1 "ann")
      ∷ answers 1 (some account)
      ∷ happens (opens 0)
      ∷ []

-- Signed in, on the page of the lobby.
abbrev in_lobby : App
in_lobby = reached here landing_route (signing_in ++ goes lobby_route ∷ [])

in_lobby-IsIdle : IsIdle in_lobby.client
unfolding app_run initial_app auth_step client_runs
in_lobby-IsIdle = record { no_socket = refl; no_reconnect = refl; no_attempt = refl }

in_lobby-player : not_empty (player in_lobby) ≡ true
unfolding app_run initial_app auth_step client_runs
in_lobby-player = refl

in_lobby-route : in_lobby.route ≡ lobby_route
unfolding app_run initial_app auth_step client_runs
in_lobby-route = refl

in_lobby-away : room_of in_lobby.route ≡ none
unfolding app_run initial_app auth_step client_runs
in_lobby-away = refl

-- The game runs, so the dialog asks whether the player means to go back to the lobby.
abbrev returning : List AppInput
returning =
    entering
    ++ happens (receives 0 "m1" (event (initial_state table (some snapshot) mafia)))
      ∷ goes lobby_route
      ∷ confirms
      ∷ []

abbrev room_socket : Socket
room_socket = record {
  url = "wss://mafia.example/ws/rooms/r1?token=t";
  ready_state = ready;
  has_onclose = true;
  sent = [];
}

entering-IsPatient : IsPatient here entering (initial_app landing_route)
unfolding IsPatient initial_app auth_step should_block get_access_token client_runs
entering-IsPatient = (
  λ e. refl,
  (λ e. refl, (λ e. refl, (λ e. refl, (λ e. refl, (λ e. cc, (λ e. cc, (λ e. cc, tt))))))),
)

returning-IsPatient : IsPatient here returning (initial_app landing_route)
unfolding IsPatient initial_app auth_step should_block get_access_token client_runs
returning-IsPatient = (
  λ e. refl,
  (
    λ e. refl,
    (
      λ e. refl,
      (
        λ e. refl,
        (λ e. refl, (λ e. cc, (λ e. cc, (λ e. cc, (λ e. refl, (λ e. refl, (λ e. refl, tt))))))),
      ),
    ),
  ),
)

entering-socket :
    get_elem? (reached here landing_route entering).client.sockets 0 ≡ some room_socket
unfolding app_run initial_app auth_step should_block get_access_token client_runs
entering-socket = refl

returning-none :
    joined_room
      (room_of (reached here landing_route returning).route)
      (player (reached here landing_route returning))
    ≡ none
unfolding app_run initial_app auth_step should_block get_access_token client_runs
returning-none = refl

room_page-sockets_example :
    let a = reached here landing_route entering in
    (id : String) × (joined_room (room_of a.route) (player a) ≡ some id)
    × IsAddress here id room_socket.url
    × (a.client.store.player_id ≡ player a)
room_page-sockets_example =
    room_page-sockets here landing_route entering 0 room_socket entering-IsPatient entering-socket
      refl

other_pages-IsIdle_example : IsIdle (reached here landing_route returning).client
other_pages-IsIdle_example =
    other_pages-IsIdle here landing_route returning returning-IsPatient returning-none

entry-IsConnected_example :
    IsConnected here "r1"
      (player in_lobby)
      "t"
      (length in_lobby.client.sockets)
      (app_run here (journey (room_route "r1") account in_lobby) in_lobby).client
entry-IsConnected_example =
    entry-IsConnected here "r1" account in_lobby in_lobby-away refl in_lobby-player refl
      in_lobby-IsIdle

-- The server admits the player to the room, and the router knows its address.
abbrev admitted : Response JoinResponse
admitted = record {
  status = 200;
  value = json (record { player_id = "ann"; id = "r1" });
  error_body = none;
}

abbrev one_room : String → Option Route
one_room path = if path == "/rooms/r1" then some (room_route "r1") else none

lobby-Arrives_example :
    let go = Arrives one_room here "r1" account in_lobby in
    go (join_settled true (settle (response admitted)) initial_lobby)
    × go (create_settled true (settle (response admitted)) initial_lobby)
    × go (code_settled true (settle (response admitted)) initial_lobby)
lobby-Arrives_example =
    lobby-Arrives one_room here "r1" account in_lobby admitted initial_lobby
      (inl (refl, refl, (record { player_id = "ann"; id = "r1" }, refl, refl))) refl in_lobby-route
      refl in_lobby-player refl in_lobby-IsIdle
