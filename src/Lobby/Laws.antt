-- ===== src/Lobby/Laws.antt =====
-- Where the lobby's handlers lead.
use Prim.Native.String.{String, ◌++◌ as append}
use mathlib.Core.Path.{◌≡◌, refl}
use mathlib.Core.Bool.{Bool, true, false}
use mathlib.Core.Option.{Option, none, some}
use native.Mathlib.Omega.{arith}
use ai_with_mafia.Common.Tests.{if◌then◌else◌, eqb}
use ai_with_mafia.Common.Text.{trim, not_empty}
use ai_with_mafia.Types.{Room}
use ai_with_mafia.Api.{thrown, RequestError, Response, response, is_ok, error_of, failure, settle}
use ai_with_mafia.Lobby.{
  JoinResponse, LobbyState, room_path, entered, show_join_error, show_create_error, show_code_error,
  join_settled, create_settled, code_settled, handle_join_room, handle_create_room,
  handle_join_by_code, ask_to_join,
}

pub conflict_thrown :
    (r : Response JoinResponse) (room : String)
    → r.status ≡ 409
    → (error_of r.error_body).room_id ≡ some room
    → not_empty room ≡ true
    → (e : RequestError) × (settle (response r) ≡ thrown e) × (e.room_id ≡ some room)
unfolding settle failure
conflict_thrown r room conflict named full =
    let bad : is_ok r.status ≡ false = ground arith in
    let is_conflict : eqb r.status 409 ≡ true = ground arith in
    (failure r.status (error_of r.error_body), rw bad refl, rw (is_conflict, named, full) refl)

pub entered_conflict :
    (confirmed : Bool) (show : String → LobbyState → LobbyState) (e : RequestError) (s : LobbyState)
    (room : String)
    → e.room_id ≡ some room
    → not_empty room ≡ true
    → entered confirmed show (thrown e) s ≡ (s, if confirmed then some (room_path room) else none)
unfolding entered
entered_conflict confirmed show e s room named full = rw (named, full) refl

ask_to_join-clears :
    (target : Room) (o : Option Room) (s : LobbyState)
    → o ≡ some target
    → (ask_to_join o s).0 ≡ record s { join_error = "" }
ask_to_join-clears target none s h = cc
ask_to_join-clears target (some room) s h = refl

handle_join_room-clears :
    (target : Room) (s : LobbyState)
    → s.joining_room ≡ some target
    → (handle_join_room s).0 ≡ record s { join_error = "" }
unfolding handle_join_room
handle_join_room-clears target s h = ask_to_join-clears target s.joining_room s h

handle_create_room-clears :
    (s : LobbyState)
    → not_empty (trim s.create_name) ≡ true
    → (handle_create_room s).0 ≡ record s { create_error = "" }
unfolding handle_create_room
handle_create_room-clears s h = rw h refl

handle_join_by_code-clears :
    (s : LobbyState)
    → not_empty (trim s.code_input) ≡ true
    → (handle_join_by_code s).0 ≡ record s { code_error = "" }
unfolding handle_join_by_code
handle_join_by_code-clears s h = rw h refl

-- Where the user goes: to the page of the room, or nowhere.
abbrev pub way : Bool → String → Option String
way confirmed room = if confirmed then some (append "/rooms/" room) else none

-- With a room chosen to join, a name that is not blank and a code that is not blank: joining,
-- creating, or joining by code, and then the reply 409 with the id of a room, which is not empty. If
-- the user confirms, the page goes to that room, and otherwise nowhere. In both cases the error of
-- the form is empty, whatever it was before, and the rest of the page is as before.
pub conflict_returns :
    (confirmed : Bool) (r : Response JoinResponse) (s : LobbyState) (target : Room) (room : String)
    → r.status ≡ 409
    → (error_of r.error_body).room_id ≡ some room
    → not_empty room ≡ true
    → s.joining_room ≡ some target
    → not_empty (trim s.create_name) ≡ true
    → not_empty (trim s.code_input) ≡ true
    → (join_settled confirmed (settle (response r)) (handle_join_room s).0
        ≡ (record s { join_error = "" }, way confirmed room))
      × (create_settled confirmed (settle (response r)) (handle_create_room s).0
          ≡ (record s { create_error = "" }, way confirmed room))
      × (code_settled confirmed (settle (response r)) (handle_join_by_code s).0
          ≡ (record s { code_error = "" }, way confirmed room))
unfolding join_settled create_settled code_settled
conflict_returns confirmed r s target room conflict told full joining name code =
    let (e, is, at) = conflict_thrown r room conflict told full in
    rw
      (
        is,
        handle_join_room-clears target s joining,
        handle_create_room-clears s name,
        handle_join_by_code-clears s code,
      )
      (
        entered_conflict confirmed show_join_error e (record s { join_error = "" }) room at full,
        entered_conflict confirmed show_create_error e (record s { create_error = "" }) room at
            full,
        entered_conflict confirmed show_code_error e (record s { code_error = "" }) room at full,
      )
