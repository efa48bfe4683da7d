-- ===== src/Lobby.antt =====
-- frontend/src/pages/LobbyPage.tsx: the state of the page and its handlers.
pub mod Laws
pub mod Run
use Prim.Native.String.{String, ◌++◌ as append}
use mathlib.Core.Bool.{Bool, true, false}
use mathlib.Core.Option.{Option, none, some}
use mathlib.Core.List.{List, []}
use ai_with_mafia.Common.Tests.{if◌then◌else◌, or_else}
use ai_with_mafia.Common.Text.{trim, truthy, not_empty}
use ai_with_mafia.Types.{Room, Visibility, public}
use ai_with_mafia.Api.{
  Settled, fulfilled, fulfilled_empty, thrown, Call, list_rooms, create_room, join_room,
  join_by_code, quick_match,
}

pub record JoinResponse : Type 0 where
  pub player_id : String
  pub id : String

pub record QuickMatchResponse : Type 0 where
  pub room_id : String
  pub player_id : String
  pub created : Bool

pub record LobbyState : Type 0 where
  pub rooms : List Room
  pub loading : Bool
  pub list_error : String
  pub joining_room : Option Room
  pub join_error : String
  pub create_name : String
  pub create_visibility : Visibility
  pub create_error : String
  pub code_input : String
  pub code_error : String

unfoldable pub initial_lobby : LobbyState
initial_lobby = record {
  rooms = [];
  loading = true;
  list_error = "";
  joining_room = none;
  join_error = "";
  create_name = "";
  create_visibility = public;
  create_error = "";
  code_input = "";
  code_error = "";
}

-- The page of a room.
abbrev pub room_path : String → String
room_path id = append "/rooms/" id

-- A handler's first half: the page that it leaves at its `await`, with the call that it makes.
abbrev pub Asking : Type 0
Asking = LobbyState × Option Call

-- Its second half: the page, and where `navigate` goes, if it is called.
abbrev pub Answer : Type 0
Answer = LobbyState × Option String

unfoldable pub fetch_rooms : LobbyState → Asking
fetch_rooms s = (record s { loading = true; list_error = "" }, some list_rooms)

unfoldable pub rooms_fetched : Settled (Option (List Room)) → LobbyState → LobbyState
rooms_fetched (fulfilled rooms) s = record s { rooms = or_else rooms []; loading = false }
rooms_fetched fulfilled_empty s = record s { rooms = []; loading = false }
rooms_fetched (thrown e) s = record s { list_error = "방 목록을 불러오지 못했습니다."; loading = false }

-- The branches that `handleJoinRoom`, `handleCreateRoom` and `handleJoinByCode` share: a conflict
-- asks the user, anything else is shown. Reading `res.id` of an empty reply throws.
unfoldable pub entered :
    Bool → (String → LobbyState → LobbyState) → Settled JoinResponse → LobbyState → Answer
entered confirmed show (fulfilled res) s = (s, some (room_path res.id))
entered confirmed show fulfilled_empty s =
    (show "Cannot read properties of undefined (reading 'id')" s, none)
entered confirmed show (thrown e) s =
    if truthy e.room_id
    then (s, if confirmed then some (room_path (or_else e.room_id "")) else none)
    else (show e.message s, none)

abbrev pub show_join_error : String → LobbyState → LobbyState
show_join_error m s = record s { join_error = m }

abbrev pub show_create_error : String → LobbyState → LobbyState
show_create_error m s = record s { create_error = m }

abbrev pub show_code_error : String → LobbyState → LobbyState
show_code_error m s = record s { code_error = m }

abbrev pub ask_to_join : Option Room → LobbyState → Asking
ask_to_join none s = (s, none)
ask_to_join (some r) s = (show_join_error "" s, some (join_room r.id))

unfoldable pub handle_join_room : LobbyState → Asking
handle_join_room s = ask_to_join s.joining_room s

unfoldable pub join_settled : Bool → Settled JoinResponse → LobbyState → Answer
unfolding entered
join_settled confirmed = entered confirmed show_join_error

unfoldable pub handle_create_room : LobbyState → Asking
unfolding trim
handle_create_room s =
    if not_empty (trim s.create_name)
    then (show_create_error "" s, some (create_room (trim s.create_name) s.create_visibility none))
    else (s, none)

unfoldable pub create_settled : Bool → Settled JoinResponse → LobbyState → Answer
unfolding entered
create_settled confirmed = entered confirmed show_create_error

unfoldable pub handle_quick_match : LobbyState → Asking
handle_quick_match s = (s, some quick_match)

unfoldable pub quick_settled : Settled QuickMatchResponse → LobbyState → Answer
quick_settled (fulfilled res) s = (s, some (room_path res.room_id))
quick_settled fulfilled_empty s =
    (show_create_error "Cannot read properties of undefined (reading 'room_id')" s, none)
quick_settled (thrown e) s = (show_create_error e.message s, none)

unfoldable pub handle_join_by_code : LobbyState → Asking
unfolding trim
handle_join_by_code s =
    if not_empty (trim s.code_input)
    then (show_code_error "" s, some (join_by_code (trim s.code_input)))
    else (s, none)

unfoldable pub code_settled : Bool → Settled JoinResponse → LobbyState → Answer
unfolding entered
code_settled confirmed = entered confirmed show_code_error

unfoldable pub open_join : Room → LobbyState → LobbyState
open_join r s = record s { joining_room = some r; join_error = "" }

-- The changes of the inputs and of the modal. The browser's `toUpperCase` comes with the text.
unfoldable pub close_join_modal : LobbyState → LobbyState
close_join_modal s = record s { joining_room = none }

unfoldable pub type_name : String → LobbyState → LobbyState
type_name text s = record s { create_name = text }

unfoldable pub choose_visibility : Visibility → LobbyState → LobbyState
choose_visibility v s = record s { create_visibility = v }

unfoldable pub type_code : (String → String) → String → LobbyState → LobbyState
type_code to_upper_case text s = record s { code_input = to_upper_case text }
