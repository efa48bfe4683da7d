-- ===== src/View/LobbyPage.antt =====
-- What frontend/src/pages/LobbyPage.tsx shows, with the advertisement as a child.
pub mod Offers
use Prim.Native.Nat.{ℕ, ◌+◌, ◌*◌}
use Prim.Native.String.{String, ◌++◌ as append}
use mathlib.Core.Bool.{Bool, true, false, not, ◌&&◌}
use mathlib.Core.Option.{Option, none, some}
use mathlib.Core.List.{List, [], ◌∷◌}
use text.Mathlib.Text.{◌==◌}
use ai_with_mafia.Common.Tests.{if◌then◌else◌}
use ai_with_mafia.Common.Lists.{length}
use ai_with_mafia.Common.Text.{decimal, pad_two, not_empty}
use ai_with_mafia.Types.{Room, RoomStatus, waiting, playing, finished, Visibility, public, private}
use ai_with_mafia.Lobby.{LobbyState}
use ai_with_mafia.View.Dom.{
  Node, Handler, empty, words, element, all_of, when, each_from, on_click, on_enter, style, prop,
  go_home, go_profile, quick_click, create_click, code_click, refresh_click, join_click, close_join,
  visibility_click, open_click,
}

-- `STATUS_CFG`: the label, the colour and the background of a status.
abbrev pub status_config : RoomStatus → String × String × String
status_config waiting = ("WAITING", "#C4963A", "rgba(196,150,58,0.12)")
status_config playing = ("PLAYING", "#3D7FA8", "rgba(61,127,168,0.12)")
status_config finished = ("FINISHED", "#786F62", "transparent")

abbrev pub status_dot : RoomStatus → String
status_dot waiting = "#3A6A3A"
status_dot playing = "#3D7FA8"
status_dot finished = "#4A4438"

abbrev pub label : String → Node
label text = element "span" [] (words text)

abbrev pub button : Handler → String → Node
button h text = element "button" (on_click h ∷ []) (words text)

-- `{text && <span>{text}</span>}`
abbrev pub error_line : String → Node
error_line text = when (not_empty text) (element "span" [] (words text))

unfoldable pub nav_bar : String → Node
nav_bar display_name = element "nav" [] (
    all_of (
      button go_home "AI Mafia"
      ∷ element "div" [] (
          all_of (
            button go_profile (if not_empty display_name then display_name else "프로필")
            ∷ element "div" [] (words "LOBBY")
            ∷ []))
      ∷ []))

abbrev pub same_visibility : Visibility → Visibility → Bool
same_visibility public public = true
same_visibility private private = true
same_visibility _ _ = false

abbrev pub visibility_label : Visibility → String
visibility_label public = "공개"
visibility_label private = "비공개"

abbrev pub visibility_pill : Visibility → Visibility → Node
visibility_pill chosen v =
    element "button"
      (on_click (visibility_click v)
        ∷ style "background"
            (if same_visibility chosen v then "rgba(196,150,58,0.12)" else "transparent")
        ∷ style "color" (if same_visibility chosen v then "#C4963A" else "#786F62")
        ∷ style "border"
            (append "1px solid " (if same_visibility chosen v then "#C4963A60" else "#2E2820"))
        ∷ [])
      (words (visibility_label v))

unfoldable pub create_form : LobbyState → Node
create_form s = element "section" [] (
    all_of (
      label "새 방 만들기"
      ∷ element "input"
          (prop "placeholder" "방 이름" ∷ prop "value" s.create_name ∷ on_enter create_click ∷ [])
          empty
      ∷ element "div" [] (
          all_of (
            visibility_pill s.create_visibility public
            ∷ visibility_pill s.create_visibility private
            ∷ []))
      ∷ error_line s.create_error
      ∷ button create_click "방 만들기"
      ∷ []))

unfoldable pub code_form : LobbyState → Node
code_form s = element "section" [] (
    all_of (
      label "초대 코드로 참가"
      ∷ element "input"
          (prop "placeholder" "XXXXXX"
            ∷ prop "value" s.code_input
            ∷ prop "maxLength" "8"
            ∷ on_enter code_click
            ∷ [])
          empty
      ∷ error_line s.code_error
      ∷ button code_click "코드로 참가"
      ∷ []))

unfoldable pub sidebar : LobbyState → Node
unfolding create_form code_form
sidebar s = element "aside" [] (
    all_of (
      element "section" [] (all_of (label "빠른 참가" ∷ button quick_click "빠른 참가" ∷ []))
      ∷ element "div" [] empty
      ∷ create_form s
      ∷ element "div" [] empty
      ∷ code_form s
      ∷ []))

unfoldable pub list_header : LobbyState → Node
unfolding decimal
list_header s = element "div" [] (
    all_of (
      element "div" [] (all_of (label "공개 게임" ∷ element "h2" [] (words "방을 선택하거나, 직접 만드세요.") ∷ []))
      ∷ element "div" [] (
          all_of (
            label (if s.loading then "—" else append (decimal (length s.rooms)) " ROOMS")
            ∷ button refresh_click "새로고침"
            ∷ []))
      ∷ []))

-- The button of a row, which is there for a waiting room only.
abbrev pub join_button : Room → RoomStatus → Node
join_button room waiting = button (open_click room) "참가"
join_button room _ = element "span" [] empty

unfoldable pub room_row : ℕ → Room → Node
unfolding decimal pad_two
room_row i room =
    element "div"
      (on_click (open_click room)
        ∷ style "animation" (append "fadeRow 200ms " (append (decimal (i * 40)) "ms ease both"))
        ∷ [])
      (all_of (
        label (pad_two (i + 1))
        ∷ element "span" (style "background" (status_dot room.status) ∷ []) empty
        ∷ label room.name
        ∷ label (append (decimal (length room.players)) "명")
        ∷ element "span"
            (style "color" (status_config room.status).1
              ∷ style "background" (status_config room.status).2
              ∷ style "border" (append "1px solid " (append (status_config room.status).1 "35"))
              ∷ [])
            (words (status_config room.status).0)
        ∷ join_button room room.status
        ∷ []))

abbrev pub has_rooms : List Room → Bool
has_rooms [] = false
has_rooms (r ∷ rs) = true

unfoldable pub room_list : LobbyState → Node
unfolding list_header room_row each_from
room_list s = element "section" [] (
    all_of (
      list_header s
      ∷ when s.loading (element "div" [] (words "LOADING..."))
      ∷ when (not s.loading && not_empty s.list_error) (element "div" [] (words s.list_error))
      ∷ when (not s.loading && not (not_empty s.list_error) && not (has_rooms s.rooms)) (
          element "div" [] (
            all_of (
              element "p" [] (words "공개된 방 없음")
              ∷ element "p" [] (words "첫 번째 방을 만들어 게임을 시작해보세요.")
              ∷ [])))
      ∷ when (not s.loading && has_rooms s.rooms) (element "div" [] (each_from 0 room_row s.rooms))
      ∷ []))

-- The modal. Its backdrop closes it when the click lands on the backdrop itself.
abbrev pub join_modal : LobbyState → Option Room → Node
join_modal s none = empty
join_modal s (some room) = element "div" (on_click close_join ∷ []) (
    element "div" [] (
      all_of (
        label "방 참가"
        ∷ element "h3" [] (words room.name)
        ∷ element "p" [] (words (append (decimal (length room.players)) "명 참가 중"))
        ∷ error_line s.join_error
        ∷ element "div" [] (all_of (button close_join "취소" ∷ button join_click "입장" ∷ []))
        ∷ [])))

unfoldable pub lobby_page : Node → String → LobbyState → Node
lobby_page banner display_name s = element "div" [] (
    all_of (
      nav_bar display_name
      ∷ element "main" [] (all_of (sidebar s ∷ room_list s ∷ []))
      ∷ join_modal s s.joining_room
      ∷ element "div" [] banner
      ∷ []))
