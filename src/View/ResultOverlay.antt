-- ===== src/View/ResultOverlay.antt =====
-- frontend/src/components/ResultOverlay.tsx, with the advertisement as a child, and LeaveConfirmModal.tsx
pub mod Offers
use Prim.Native.Nat.{ℕ, ◌+◌, ◌/◌, ◌%◌}
use Prim.Native.String.{String, ◌++◌ as append}
use mathlib.Core.Bool.{Bool}
use mathlib.Core.Option.{Option, none, some}
use mathlib.Core.List.{[], ◌∷◌}
use text.Mathlib.Text.{◌==◌}
use ai_with_mafia.Common.Tests.{if◌then◌else◌, eqb, or_else}
use ai_with_mafia.Common.Text.{decimal, pad_two, truthy}
use ai_with_mafia.Types.{
  Role, mafia, police, citizen, unassigned, Room, GameOverResult, GameOverResultPlayer, Winner,
  mafia_win, citizen_win, aborted,
}
use ai_with_mafia.Store.State.{GameStore}
use ai_with_mafia.Api.{Call, restart_game}
use ai_with_mafia.View.Dom.{
  Node, empty, words, element, all_of, when, each_from, on_click, style, restart_click, leave_click,
  confirm_leave, cancel_leave,
}

-- `ROLE_LABELS`
abbrev pub result_role_label : Role → String
result_role_label mafia = "MAFIA"
result_role_label police = "POLICE"
result_role_label citizen = "CITIZEN"
result_role_label unassigned = "?"

-- `ROLE_COLOR`, as the colour and the background.
abbrev pub role_color : Role → String × String
role_color mafia = ("#8C1F1F", "rgba(140,31,31,0.15)")
role_color police = ("#3D7FA8", "rgba(61,127,168,0.12)")
role_color _ = ("#786F62", "transparent")

abbrev pub banner_title : Winner → String
banner_title aborted = "게임 중단"
banner_title mafia_win = "마피아의 승리"
banner_title citizen_win = "시민의 승리"

-- `bannerMeta`
abbrev pub banner_meta_of : GameOverResult → Winner → String
banner_meta_of g aborted =
    if or_else g.reason "" == "all_humans_left" then "모든 플레이어가 나가 게임이 중단되었습니다." else "게임이 중단되었습니다."
banner_meta_of g _ = append (decimal g.round) (
    append " 라운드 · " (
      append (decimal (g.duration_sec / 60))
        (append "분 " (append (decimal (g.duration_sec % 60)) "초"))))

unfoldable pub banner_meta : GameOverResult → String
unfolding decimal
banner_meta g = banner_meta_of g g.winner

abbrev pub banner_color : Winner → String
banner_color aborted = "#786F62"
banner_color mafia_win = "#8C1F1F"
banner_color citizen_win = "#3A6A3A"

abbrev pub banner_background : Winner → String
banner_background aborted = "linear-gradient(180deg, rgba(120,111,98,0.08) 0%, transparent 100%)"
banner_background mafia_win = "linear-gradient(180deg, rgba(140,31,31,0.12) 0%, transparent 100%)"
banner_background citizen_win = "linear-gradient(180deg, rgba(58,106,58,0.10) 0%, transparent 100%)"

abbrev pub banner_label : Winner → String
banner_label aborted = "게임 중단"
banner_label _ = "게임 종료"

unfoldable pub result_row : ℕ → GameOverResultPlayer → Node
unfolding pad_two
result_row i p =
    element "div"
      (style "background" (if eqb (i % 2) 0 then "transparent" else "rgba(34,30,23,0.4)")
        ∷ style "opacity" (if p.survived then "1" else "0.65")
        ∷ [])
      (all_of (
        element "span" [] (words (pad_two (i + 1)))
        ∷ element "span"
            (style "color" (if p.survived then "#ECE7DE" else "#4A4438")
              ∷ style "textDecoration" (if p.survived then "none" else "line-through")
              ∷ [])
            (words p.name)
        ∷ element "span" (style "color" (if p.is_ai then "#C4963A" else "#786F62") ∷ [])
            (words (if p.is_ai then "AI" else "HUMAN"))
        ∷ element "span"
            (style "color" (role_color p.role).0
              ∷ style "background" (role_color p.role).1
              ∷ style "border" (append "1px solid " (append (role_color p.role).0 "35"))
              ∷ [])
            (words (result_role_label p.role))
        ∷ element "span" (style "color" (if p.survived then "#3A6A3A" else "#8C1F1F") ∷ [])
            (words (if p.survived then "SURVIVED" else "ELIMINATED"))
        ∷ []))

abbrev pub result_buttons : GameStore → Room → Node
result_buttons s r = element "div" [] (
    all_of (
      element "button" (on_click leave_click ∷ []) (words "나가기")
      ∷ when (r.host_id == s.player_id)
          (element "button" (on_click restart_click ∷ []) (words "다시 시작"))
      ∷ []))

abbrev pub column_headers : Node
column_headers = element "div" [] (
    all_of (
      element "span" [] (words "#")
      ∷ element "span" [] (words "NAME")
      ∷ element "span" [] (words "IDENTITY")
      ∷ element "span" [] (words "ROLE")
      ∷ element "span" [] (words "STATUS")
      ∷ []))

abbrev pub winner_banner : GameOverResult → Node
winner_banner g = element "div" (style "background" (banner_background g.winner) ∷ []) (
    all_of (
      element "div" (style "color" (banner_color g.winner) ∷ []) (words (banner_label g.winner))
      ∷ element "h2" [] (words (banner_title g.winner))
      ∷ element "div" [] (words (banner_meta g))
      ∷ []))

abbrev pub result_overlay_of : Node → GameStore → Option GameOverResult → Option Room → Node
result_overlay_of banner s none r = empty
result_overlay_of banner s (some g) none = empty
result_overlay_of banner s (some g) (some r) = element "div" [] (
    element "div" [] (
      all_of (
        winner_banner g
        ∷ element "div" [] (all_of (column_headers ∷ each_from 0 result_row g.players ∷ []))
        ∷ element "div" [] banner
        ∷ result_buttons s r
        ∷ [])))

-- The overlay, by the id of the room in the path.
unfoldable pub result_overlay : Option String → Node → GameStore → Node
unfolding result_row banner_meta each_from
result_overlay room_id banner s =
    if truthy room_id then result_overlay_of banner s s.result s.room else empty

-- `handleRestart`, up to its `await`; the button is there only with an id.
unfoldable pub handle_restart : String → Call
handle_restart room_id = restart_game room_id

-- LeaveConfirmModal
unfoldable pub leave_confirm_modal : Bool → Node
leave_confirm_modal is_open = when is_open (
    element "div" [] (
      element "div" [] (
        all_of (
          element "div" [] (
            all_of
              (element "div" [] (words "게임 진행 중") ∷ element "h2" [] (words "게임에서 나가시겠습니까?") ∷ []))
          ∷ element "div" [] (element "p" [] (words "나가면 AI가 당신의 역할을 대신하며 게임은 계속 진행됩니다."))
          ∷ element "div" [] (
              all_of (
                element "button" (on_click confirm_leave ∷ []) (words "나가기")
                ∷ element "button" (on_click cancel_leave ∷ []) (words "계속 플레이")
                ∷ []))
          ∷ []))))
