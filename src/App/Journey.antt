-- ===== src/App/Journey.antt =====
-- From the lobby into a room: the reply to a handler of LobbyPage.tsx, the address that the handler
-- navigates to, and the page behind it.
use Prim.Native.String.{String}
use mathlib.Core.Path.{◌≡◌, refl, sym, ap, subst}
use mathlib.Core.Logic.{◌⊎◌, inl, inr}
use mathlib.Core.Bool.{true, false}
use mathlib.Core.Option.{Option, some}
use text.Mathlib.Text.{◌==◌}
use ai_with_mafia.Common.Tests.{eqb}
use ai_with_mafia.Common.Lists.{length}
use ai_with_mafia.Common.Text.{not_empty}
use ai_with_mafia.Store.Connection.{Location}
use ai_with_mafia.Store.Steps.Idle.{IsIdle}
use ai_with_mafia.Auth.{Session}
use ai_with_mafia.Api.{Response, response, json, is_ok, error_of, settle}
use ai_with_mafia.Lobby.{
  JoinResponse, LobbyState, room_path, Answer, entered, show_join_error, show_create_error,
  show_code_error, join_settled, create_settled, code_settled,
}
use ai_with_mafia.Lobby.Laws.{conflict_thrown, entered_conflict}
use ai_with_mafia.Routes.{Route, lobby_route, room_route, visit}
use ai_with_mafia.App.{App, room_of, player, app_run}
use ai_with_mafia.App.Enter.{IsConnected, journey, entry-IsConnected}

-- A success whose body has the id of the room.
abbrev pub Admits : String → Response JoinResponse → Type 0
Admits id r =
    (is_ok r.status ≡ true)
    × (eqb r.status 204 ≡ false)
    × ((res : JoinResponse) × (r.value ≡ json res) × (res.id ≡ id))

-- A conflict: the user is in the room already.
abbrev pub Recalls : String → Response JoinResponse → Type 0
Recalls id r = (r.status ≡ 409) × ((error_of r.error_body).room_id ≡ some id)

entered-room_path :
    (show : String → LobbyState → LobbyState) (id : String) (r : Response JoinResponse)
    (s : LobbyState)
    → not_empty id ≡ true
    → Admits id r ⊎ Recalls id r
    → (entered true show (settle (response r)) s).1 ≡ some (room_path id)
unfolding entered settle
entered-room_path show id r s named (inl (ok, full, (res, is, same))) =
    rw (ok, full, is) (ap (λ i. some (room_path i)) same)
entered-room_path show id r s named (inr (conflict, told)) =
    let (e, is, at) = conflict_thrown r id conflict told named in
    rw is (ap (λ b. b.1) (entered_conflict true show e s id at named))

module _ (match_path : String → Option Route) (loc : Location) (id : String) (session : Session)
    (a : App) where
  -- Where the answer of a handler leads, the client is connected to the room.
  abbrev pub Arrives : Answer → Type 0
  Arrives answer =
      IsConnected loc id (player a) session.access_token (length a.client.sockets)
        (app_run loc (journey (visit match_path answer.1 a.route) session a) a).client

  visit-room_route :
      (answer : Answer)
      → answer.1 ≡ some (room_path id)
      → match_path (room_path id) ≡ some (room_route id)
      → visit match_path answer.1 a.route ≡ room_route id
  visit-room_route answer leads known = rw (leads, known) refl

  -- In the lobby, with a player who is signed in and an idle client: if the router reads the address
  -- of the room as its page, a reply that admits to the room, or that recalls to it with the user's
  -- consent, leads to its page, and the client is connected to the room once the import, a token that
  -- is not empty, and the opening of the socket have followed. So for joining, creating and joining
  -- by code.
  pub lobby-Arrives :
      (r : Response JoinResponse) (s : LobbyState)
      → Admits id r ⊎ Recalls id r
      → match_path (room_path id) ≡ some (room_route id)
      → a.route ≡ lobby_route
      → not_empty id ≡ true
      → not_empty (player a) ≡ true
      → (session.access_token == "") ≡ false
      → IsIdle a.client
      → Arrives (join_settled true (settle (response r)) s)
        × Arrives (create_settled true (settle (response r)) s)
        × Arrives (code_settled true (settle (response r)) s)
  unfolding join_settled create_settled code_settled
  lobby-Arrives r s brings known here named signed full idle =
      let there = entry-IsConnected loc id session a (ap room_of here) named signed full idle in
      let arrive : (answer : Answer) → answer.1 ≡ some (room_path id) → Arrives answer =
        λ answer leads.
          subst
            (λ p.
              IsConnected loc id (player a) session.access_token (length a.client.sockets)
                (app_run loc (journey p session a) a).client)
            (sym (visit-room_route answer leads known)) there in
      (
        arrive (join_settled true (settle (response r)) s)
            (entered-room_path show_join_error id r s named brings),
        arrive (create_settled true (settle (response r)) s)
            (entered-room_path show_create_error id r s named brings),
        arrive (code_settled true (settle (response r)) s)
            (entered-room_path show_code_error id r s named brings),
      )
