-- ===== src/App.antt =====
-- The application as frontend/src/main.tsx puts it together: the page that the router shows, the
-- sign-in, and the client of a room, which only frontend/src/pages/RoomPage.tsx connects and
-- disconnects. The effect of that page runs again when the id in the path or the player changes.
pub mod Enter
pub mod Journey
pub mod Placed
pub mod Safety
pub mod Sound
use Prim.Native.Nat.{ℕ}
use Prim.Native.String.{String}
use mathlib.Core.Bool.{Bool, true, false, not, ◌&&◌}
use mathlib.Core.Option.{Option, none, some}
use mathlib.Core.List.{List, [], ◌∷◌}
use text.Mathlib.Text.{◌==◌}
use ai_with_mafia.Common.Tests.{if◌then◌else◌}
use ai_with_mafia.Store.State.{Client, GameStore, initial_client}
use ai_with_mafia.Store.Connection.{Location}
use ai_with_mafia.Store.Steps.{Input, connects, disconnects, imports, tokens, step}
use ai_with_mafia.Auth.{Session, get_access_token, AuthClient, AuthInput, initial_auth, auth_step}
use ai_with_mafia.Routes.{Route, room_route}
use ai_with_mafia.View.RoomPage.{
  should_block, on_mount, on_unmount, handle_leave_confirm, handle_leave_cancel,
}

-- The route that is shown, the two stores, and the navigation that `useBlocker` holds back.
pub record App : Type 0 where
  pub route : Route
  pub auth : AuthClient
  pub client : Client
  pub blocked : Option Route

-- The application is opened at some address. Nobody is signed in yet, so no page connects.
unfoldable pub initial_app : Route → App
unfolding initial_auth initial_client
initial_app r = record { route = r; auth = initial_auth; client = initial_client; blocked = none }

-- `useParams`, on the page of a room.
abbrev pub room_of : Route → Option String
room_of (room_route id) = some id
room_of _ = none

abbrev pub player : App → String
player a = a.auth.store.player_id

abbrev pub same_room : Option String → Option String → Bool
same_room none none = true
same_room (some id) (some id') = id == id'
same_room _ _ = false

-- The dependencies of the effect are the same.
abbrev pub same_key : Option String → String → Option String → String → Bool
same_key room_id player_id room_id' player_id' =
    same_room room_id room_id' && player_id == player_id'

-- From one render to the next: if a dependency has changed, the old effect is cleaned up and the
-- new one runs.
unfoldable pub resync : Option String → String → Option String → String → Client → Client
unfolding on_mount on_unmount
resync room_id player_id room_id' player_id' c =
    if same_key room_id player_id room_id' player_id'
    then c
    else (on_mount room_id' player_id' (on_unmount room_id player_id c)).0

-- `useBlocker(shouldBlock)`, which only the page of a room calls.
abbrev pub blocks : Route → GameStore → Bool
blocks (room_route id) s = should_block s
blocks _ s = false

unfoldable pub shows : Route → App → App
unfolding resync
shows r a = record a {
  route = r;
  client = resync (room_of a.route) (player a) (room_of r) (player a) a.client;
  blocked = none;
}

unfoldable pub navigate : Route → App → App
unfolding shows
navigate r a = if blocks a.route a.client.store then record a { blocked = some r } else shows r a

-- LeaveConfirmModal is open while a navigation is blocked.
abbrev pub confirm_leave : Option Route → App → App
confirm_leave none a = a
confirm_leave (some r) a = shows r (record a { client = (handle_leave_confirm true a.client).0 })

abbrev pub cancel_leave : Option Route → App → App
cancel_leave none a = a
cancel_leave (some r) a = record a {
  client = (handle_leave_cancel true a.client).0;
  blocked = none;
}

unfoldable pub sign : AuthInput → App → App
unfolding auth_step resync
sign i a =
    let auth = auth_step i a.auth in
    record a {
      auth = auth;
      client = resync (room_of a.route) (player a) (room_of a.route) auth.store.player_id a.client;
    }

-- What happens: a page, its redirect or the browser navigates; the user answers the dialog; the
-- sign-in goes on; Supabase answers a body of `connect` that asks for the token; and what the browser, the server and the components do with the client. Only
-- the page of a room calls `connect` and `disconnect`.
pub data AppInput : Type 0 where
  goes : Route → AppInput
  confirms cancels : AppInput
  signs : AuthInput → AppInput
  answers : ℕ → Option Session → AppInput
  happens : Input → AppInput

-- The body of `connect` reads the player id of the auth store when its import has come.
unfoldable pub read_auth : String → Input → Input
read_auth player_id (imports g other) = imports g player_id
read_auth player_id i = i

-- The pages call `connect` and `disconnect`, and Supabase is asked for the token.
abbrev pub is_elsewhere : Input → Bool
is_elsewhere (connects room_id) = true
is_elsewhere disconnects = true
is_elsewhere (tokens g token) = true
is_elsewhere _ = false

module _ (loc : Location) where
  unfoldable pub app_step : AppInput → App → App
  unfolding navigate handle_leave_confirm handle_leave_cancel sign read_auth get_access_token step
  app_step (goes r) a = navigate r a
  app_step confirms a = confirm_leave a.blocked a
  app_step cancels a = cancel_leave a.blocked a
  app_step (signs i) a = sign i a
  app_step (answers g s) a = record a { client = step loc (tokens g (get_access_token s)) a.client }
  app_step (happens i) a =
      if is_elsewhere i then a else record a { client = step loc (read_auth (player a) i) a.client }

  unfoldable pub app_run : List AppInput → App → App
  unfolding app_step
  app_run [] a = a
  app_run (i ∷ is) a = app_run is (app_step i a)
