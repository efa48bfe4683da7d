-- ===== src/View/WaitingRoom.antt =====
-- frontend/src/components/WaitingRoom.tsx, with the advertisement as a child.
pub mod Start
use Prim.Native.Nat.{ℕ, ◌+◌}
use Prim.Native.String.{◌++◌ as append}
use mathlib.Core.Bool.{Bool, true, false, not, ◌&&◌}
use mathlib.Core.Option.{Option, none, some}
use mathlib.Core.List.{[], ◌∷◌}
use text.Mathlib.Text.{◌==◌}
use ai_with_mafia.Common.Tests.{if◌then◌else◌, leb, or_else, map_option}
use ai_with_mafia.Common.Lists.{length}
use ai_with_mafia.Common.Text.{decimal, pad_two, truthy}
use ai_with_mafia.Types.{Visibility, public, private, Player, Room}
use ai_with_mafia.Store.State.{GameStore}
use ai_with_mafia.Api.{Call, start_game}
use ai_with_mafia.View.Dom.{
  Node, empty, words, element, all_of, when, each_from, on_click, disabled, style, start_click,
}

abbrev pub is_private : Visibility → Bool
is_private private = true
is_private public = false

unfoldable pub waiting_row : GameStore → Room → ℕ → Player → Node
unfolding pad_two
waiting_row s r i p = element "div" [] (
    all_of (
      element "span" [] (words (pad_two (i + 1)))
      ∷ element "span" [] empty
      ∷ element "span" [] (words p.name)
      ∷ element "div" [] (
          all_of (
            when (p.id == r.host_id) (element "span" [] (words "HOST"))
            ∷ when (p.id == s.player_id) (element "span" [] (words "ME"))
            ∷ []))
      ∷ []))

-- The start button of the host, or the text for everybody else.
abbrev pub start_or_wait : GameStore → Room → Node
start_or_wait s r =
    let can_start = leb 1 (length r.players) in
    if r.host_id == s.player_id
    then element "button"
        (on_click start_click
          ∷ disabled (not can_start)
          ∷ style "cursor" (if can_start then "pointer" else "not-allowed")
          ∷ style "opacity" (if can_start then "1" else "0.4")
          ∷ [])
        (words "게임 시작")
    else element "div" [] (words "방장이 게임을 시작할 때까지 대기 중...")

abbrev pub join_code_box : Room → Node
join_code_box r = element "div" [] (
    all_of
      (element "div" [] (words "초대 코드") ∷ element "div" [] (words (or_else r.join_code "")) ∷ []))

abbrev pub waiting_room_of : Node → GameStore → Option Room → Node
waiting_room_of banner s none = empty
waiting_room_of banner s (some r) = element "div" [] (
    element "div" [] (
      all_of (
        element "div" [] (words "대기 중 — Waiting Room")
        ∷ element "h1" [] (words r.name)
        ∷ when (is_private r.visibility && truthy r.join_code) (join_code_box r)
        ∷ element "div" [] (
            all_of (
              element "div" [] (words (append "플레이어 · " (append (decimal (length r.players)) "명")))
              ∷ each_from 0 (waiting_row s r) r.players
              ∷ []))
        ∷ element "div" [] banner
        ∷ start_or_wait s r
        ∷ [])))

unfoldable pub waiting_room : Node → GameStore → Node
unfolding waiting_row each_from decimal
waiting_room banner s = waiting_room_of banner s s.room

-- `handleStart`, up to its `await`; an exception is only logged.
unfoldable pub handle_start : GameStore → Option Call
handle_start s = map_option (λ r. start_game r.id) s.room
