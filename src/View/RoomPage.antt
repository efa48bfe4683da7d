-- ===== src/View/RoomPage.antt =====
-- frontend/src/pages/RoomPage.tsx, and what a restart does in components/ResultOverlay.tsx
pub mod Laws
use Prim.Native.String.{String, ◌++◌ as append}
use mathlib.Core.Bool.{Bool, true, false, not, ◌&&◌}
use mathlib.Core.Option.{Option, none, some}
use ai_with_mafia.Common.Tests.{if◌then◌else◌, is_some, or_else}
use ai_with_mafia.Common.Text.{truthy, not_empty}
use ai_with_mafia.Types.{waiting, playing, finished, Room}
use ai_with_mafia.Store.State.{GameStore, Client}
use ai_with_mafia.Store.Connection.{connect, disconnect}
use ai_with_mafia.Api.{Settled, fulfilled, fulfilled_empty, thrown}
use ai_with_mafia.Store.Steps.{clear_result}
use ai_with_mafia.Store.Updates.{with_store}

-- What the page shows below its overlays.
pub data Screen : Type 0 where
  connecting_screen waiting_screen game_screen : Screen

-- `room?.status === 'playing' && !result`
abbrev pub is_playing : Option Room → Bool
is_playing none = false
is_playing (some r) = elim r.status [ playing ↦ true | _ ↦ false ]

unfoldable pub should_block : GameStore → Bool
should_block s = is_playing s.room && not (is_some s.result)

abbrev pub screen_of : Option Room → Screen
screen_of none = connecting_screen
screen_of (some r) = elim r.status [
  | waiting ↦ waiting_screen
  | finished ↦ waiting_screen
  | playing ↦ game_screen
]

-- The page: its screen, whether ResultOverlay covers it, and whether LeaveConfirmModal is open.
pub record Page : Type 0 where
  pub screen : Screen
  pub has_result : Bool
  pub is_confirming : Bool

unfoldable pub room_page : Bool → GameStore → Page
room_page blocked s = record {
  screen = screen_of s.room;
  has_result = is_some s.room && is_some s.result;
  is_confirming = is_some s.room && blocked;
}

-- The effect that connects, by the id in the path and the player id of the auth store: the client
-- after it, and where `navigate` goes.
unfoldable pub on_mount : Option String → String → Client → Client × Option String
unfolding connect
on_mount room_id player_id c =
    if truthy room_id
    then if not_empty player_id
      then elim room_id [ some id ↦ (connect id c, none) | none ↦ (c, none) ]
      else (c, some "/lobby")
    else (c, none)

-- Its cleanup, which it returns if it has connected.
unfoldable pub on_unmount : Option String → String → Client → Client
unfolding disconnect
on_unmount room_id player_id c = if truthy room_id && not_empty player_id then disconnect c else c

-- The listener of `beforeunload`, which is there while a navigation is blocked: whether it prevents
-- the unloading.
unfoldable pub prevents_unload : GameStore → Bool
unfolding should_block
prevents_unload s = should_block s

-- `navigator.sendBeacon`: the address, and the player id in the body.
pub record Beacon : Type 0 where
  pub url : String
  pub player_id : String

-- The listener of `pagehide`, which is there with an id in the path and a player.
unfoldable pub handle_page_hide : Option String → String → Option Beacon
handle_page_hide room_id player_id =
    if truthy room_id && not_empty player_id
    then some (record {
      url = append "/api/rooms/" (append (or_else room_id "") "/leave");
      player_id = player_id;
    })
    else none

-- `useBlocker`: what the two handlers of LeaveConfirmModal do with a blocked navigation.
pub data Blocker : Type 0 where
  proceeds stays unblocked : Blocker

unfoldable pub handle_leave_confirm : Bool → Client → Client × Blocker
unfolding disconnect
handle_leave_confirm blocked c = (disconnect c, if blocked then proceeds else unblocked)

unfoldable pub handle_leave_cancel : Bool → Client → Client × Blocker
handle_leave_cancel blocked c = (c, if blocked then stays else unblocked)

-- `handleRestart` of ResultOverlay behind its `await`: an exception keeps the result.
unfoldable pub restart_settled {ℓ} : {A : Type ℓ} → Settled A → Client → Client
unfolding clear_result
restart_settled (fulfilled a) c = with_store clear_result c
restart_settled fulfilled_empty c = with_store clear_result c
restart_settled (thrown e) c = c
