-- ===== src/View/Chat.antt =====
-- frontend/src/components/ChatInput.tsx and ChatLog.tsx
pub mod Laws
use Prim.Native.String.{String}
use mathlib.Core.Bool.{Bool, true, false, not, ◌||◌, ◌&&◌}
use mathlib.Core.Option.{Option, none, some}
use mathlib.Core.List.{List, [], ◌∷◌}
use text.Mathlib.Text.{◌==◌}
use ai_with_mafia.Common.Tests.{if◌then◌else◌, or_else}
use ai_with_mafia.Common.Text.{trim, truthy, not_empty}
use ai_with_mafia.Types.{Phase, day_discussion, day_vote, ChatMessage, Room}
use ai_with_mafia.Store.State.{GameStore, Client, chat_payload}
use ai_with_mafia.Store.Connection.{send_action}
use ai_with_mafia.Store.Updates.{name_of}
use ai_with_mafia.View.Dom.{
  Node, empty, words, element, all_of, when, each, on_click, on_enter, disabled, style, prop,
  send_chat,
}

-- `phase === 'day_discussion' || phase === 'day_vote'`
abbrev pub is_chat_phase : Option Phase → Bool
is_chat_phase (some day_discussion) = true
is_chat_phase (some day_vote) = true
is_chat_phase _ = false

-- ChatInput, by the text in the field.
unfoldable pub chat_input : String → GameStore → Node
unfolding trim
chat_input field s =
    let enabled = is_chat_phase s.phase in
    let can = enabled && not_empty (trim field) in
    element "div" [] (
      all_of (
        element "input"
          (prop "placeholder" (if enabled then "메시지 입력..." else "이 페이즈에서는 채팅 불가")
            ∷ disabled (not enabled)
            ∷ prop "value" field
            ∷ on_enter send_chat
            ∷ [])
          empty
        ∷ element "button"
            (on_click send_chat
              ∷ disabled (not enabled || not (not_empty (trim field)))
              ∷ style "cursor" (if can then "pointer" else "not-allowed")
              ∷ style "opacity" (if can then "1" else "0.4")
              ∷ [])
            (words "전송")
        ∷ []))

-- `handleSend`: the client and the field after it.
unfoldable pub handle_send : String → Client → Client × String
unfolding trim send_action
handle_send field c =
    if not (not_empty (trim field)) || not (is_chat_phase c.store.phase)
    then (c, field)
    else (send_action "chat" (chat_payload (trim field) none) c, "")

-- `getPlayerName`
unfoldable pub get_player_name : Option Room → String → Option String → String
unfolding name_of
get_player_name room id name =
    if id == "system" then "" else if truthy name then or_else name "" else name_of room id

abbrev pub is_true : Option Bool → Bool
is_true none = false
is_true (some b) = b

unfoldable pub chat_row : Option Room → ChatMessage → Node
unfolding get_player_name
chat_row room msg =
    if is_true msg.is_system
    then element "div" [] (words msg.message)
    else element "div" [] (
        all_of (
          element "span" (style "color" (if msg.mafia_only then "#8C1F1F" else "#786F62") ∷ []) (
            all_of (
              words (get_player_name room msg.player_id msg.player_name)
              ∷ when msg.mafia_only (element "span" [] (words "✦"))
              ∷ []))
          ∷ element "span" [] (words "—")
          ∷ element "span" [] (words msg.message)
          ∷ []))

abbrev pub is_nil : List ChatMessage → Bool
is_nil [] = true
is_nil (_ ∷ _) = false

unfoldable pub chat_log : GameStore → Node
unfolding chat_row each
chat_log s = element "div" [] (
    all_of (
      when (is_nil s.messages) (element "div" [] (words "채팅 없음"))
      ∷ each (chat_row s.room) s.messages
      ∷ element "div" [] empty
      ∷ []))
