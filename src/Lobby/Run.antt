-- ===== src/Lobby/Run.antt =====
-- What happens to frontend/src/pages/LobbyPage.tsx: clicks, inputs and the replies to its calls.
pub mod Calls
use Prim.Native.Nat.{ℕ}
use Prim.Native.String.{String}
use mathlib.Core.Bool.{Bool}
use mathlib.Core.Option.{Option, none, some}
use mathlib.Core.List.{List, [], ◌∷◌, ◌++◌}
use ai_with_mafia.Common.Tests.{if◌then◌else◌}
use ai_with_mafia.Common.Lists.{get_elem?}
use ai_with_mafia.Types.{Room, Visibility}
use ai_with_mafia.Api.{Settled, Call}
use ai_with_mafia.Lobby.{
  JoinResponse, QuickMatchResponse, LobbyState, Asking, Answer, initial_lobby, fetch_rooms,
  rooms_fetched, handle_join_room, join_settled, handle_create_room, create_settled,
  handle_quick_match, quick_settled, handle_join_by_code, code_settled, open_join, close_join_modal,
  type_name, choose_visibility, type_code,
}

-- The page stays mounted: leaving it ends a run. A row is clicked by its place in the list. The
-- replies come with what the user answers if the page asks, and the code in upper case, as the
-- browser makes it.
pub data LobbyInput : Type 0 where
  fetches joins creates quick_matches joins_by_code closes : LobbyInput
  fetched : Settled (Option (List Room)) → LobbyInput
  join_replies create_replies code_replies : Bool → Settled JoinResponse → LobbyInput
  quick_replies : Settled QuickMatchResponse → LobbyInput
  clicks_row : ℕ → LobbyInput
  types_name types_code : String → LobbyInput
  chooses : Visibility → LobbyInput

-- The page, the calls made so far, and where it has navigated last.
pub record LobbyClient : Type 0 where
  pub state : LobbyState
  pub calls : List Call
  pub path : Option String

abbrev pub initial_lobby_client : LobbyClient
initial_lobby_client = record { state = initial_lobby; calls = []; path = none }

abbrev pub noted : List Call → Option Call → List Call
noted calls none = calls
noted calls (some call) = calls ++ call ∷ []

abbrev pub asks : Asking → LobbyClient → LobbyClient
asks (s, call) c = record c { state = s; calls = noted c.calls call }

abbrev pub leads : Option String → Option String → Option String
leads none path = path
leads (some new) path = some new

abbrev pub settles : Answer → LobbyClient → LobbyClient
settles (s, path) c = record c { state = s; path = leads path c.path }

-- The rows are shown unless the list is loading.
abbrev pub clicked_row : ℕ → LobbyState → Option Room
clicked_row i s = if s.loading then none else get_elem? s.rooms i

abbrev pub open_row : Option Room → LobbyState → LobbyState
open_row none s = s
open_row (some r) s = open_join r s

unfoldable pub lobby_step : LobbyInput → LobbyClient → LobbyClient
unfolding fetch_rooms rooms_fetched handle_join_room join_settled handle_create_room create_settled
    handle_quick_match quick_settled handle_join_by_code code_settled open_join close_join_modal
    type_name choose_visibility type_code
lobby_step fetches c = asks (fetch_rooms c.state) c
lobby_step (fetched r) c = record c { state = rooms_fetched r c.state }
lobby_step joins c = asks (handle_join_room c.state) c
lobby_step (join_replies confirmed r) c = settles (join_settled confirmed r c.state) c
lobby_step creates c = asks (handle_create_room c.state) c
lobby_step (create_replies confirmed r) c = settles (create_settled confirmed r c.state) c
lobby_step quick_matches c = asks (handle_quick_match c.state) c
lobby_step (quick_replies r) c = settles (quick_settled r c.state) c
lobby_step joins_by_code c = asks (handle_join_by_code c.state) c
lobby_step (code_replies confirmed r) c = settles (code_settled confirmed r c.state) c
lobby_step (clicks_row i) c = record c { state = open_row (clicked_row i c.state) c.state }
lobby_step closes c = record c { state = close_join_modal c.state }
lobby_step (types_name text) c = record c { state = type_name text c.state }
lobby_step (types_code text) c = record c { state = type_code (λ t. t) text c.state }
lobby_step (chooses v) c = record c { state = choose_visibility v c.state }

unfoldable pub lobby_run : List LobbyInput → LobbyClient → LobbyClient
unfolding lobby_step
lobby_run [] c = c
lobby_run (i ∷ is) c = lobby_run is (lobby_step i c)
