-- ===== src/View/GameRoom.antt =====
-- frontend/src/components/GameRoom.tsx
pub mod Powers
pub mod Acts
use Prim.Native.String.{String}
use mathlib.Core.Bool.{Bool, true, false, not, ◌&&◌}
use mathlib.Core.Option.{Option, some}
use mathlib.Core.List.{[], ◌∷◌}
use ai_with_mafia.Common.Tests.{if◌then◌else◌}
use ai_with_mafia.Common.Text.{trim, not_empty}
use ai_with_mafia.Types.{Phase, day_discussion, day_vote, night, Role, mafia, Player}
use ai_with_mafia.Store.State.{GameStore, Client, chat_payload}
use ai_with_mafia.Store.Connection.{send_action}
use ai_with_mafia.View.Dom.{
  Node, empty, words, element, all_of, when, on_click, on_enter, disabled, style, prop,
  send_mafia_chat,
}
use ai_with_mafia.View.Header.{phase_header}
use ai_with_mafia.View.PlayerList.{player_list}
use ai_with_mafia.View.Chat.{chat_log, chat_input}
use ai_with_mafia.View.VotePanel.{vote_panel}
use ai_with_mafia.View.NightPanel.{night_panel}

abbrev pub is_night_phase : Option Phase → Bool
is_night_phase (some night) = true
is_night_phase _ = false

abbrev pub is_vote_phase : Option Phase → Bool
is_vote_phase (some day_vote) = true
is_vote_phase _ = false

abbrev pub is_discussion : Option Phase → Bool
is_discussion (some day_discussion) = true
is_discussion _ = false

abbrev pub is_mafia : Role → Bool
is_mafia mafia = true
is_mafia _ = false

-- The channel of the mafia at night, by the text in its field.
unfoldable pub mafia_channel : String → Node
unfolding trim
mafia_channel field = element "div" [] (
    all_of (
      element "input"
        (prop "placeholder" "마피아 채널 (마피아끼리만)" ∷ prop "value" field ∷ on_enter send_mafia_chat ∷ [])
        empty
      ∷ element "button"
          (on_click send_mafia_chat
            ∷ disabled (not (not_empty (trim field)))
            ∷ style "cursor" (if not_empty (trim field) then "pointer" else "not-allowed")
            ∷ style "opacity" (if not_empty (trim field) then "1" else "0.4")
            ∷ [])
          (words "전송")
      ∷ []))

abbrev pub action_panel_for : Option Phase → GameStore → Node
action_panel_for phase s = when (not (is_discussion phase)) (
    element "aside" [] (
      all_of (
        when (is_vote_phase phase) (vote_panel s)
        ∷ when (is_night_phase phase) (night_panel s)
        ∷ [])))

-- The right column, hidden during the discussion.
unfoldable pub action_panel : GameStore → Node
unfolding vote_panel night_panel
action_panel s = action_panel_for s.phase s

-- By the texts in the two fields, the full screen, and the field `role` of PlayerList.
unfoldable pub game_room : (Player → Option Role) → Bool → String → String → GameStore → Node
unfolding phase_header player_list chat_log chat_input mafia_channel action_panel
game_room role_field is_full field mafia_field s = element "div" [] (
    all_of (
      phase_header is_full s
      ∷ element "div" [] (
          all_of (
            element "aside" [] (player_list role_field s)
            ∷ element "main"
                (style "background"
                    (if is_night_phase s.phase then "rgba(14,12,9,0.97)" else "#0E0C09")
                  ∷ [])
                (all_of (
                  chat_log s
                  ∷ chat_input field s
                  ∷ when (is_night_phase s.phase && is_mafia s.my_role) (mafia_channel mafia_field)
                  ∷ []))
            ∷ action_panel s
            ∷ []))
      ∷ []))

-- `handleMafiaChat`: the client and the field after it.
unfoldable pub handle_mafia_chat : String → Client → Client × String
unfolding trim send_action
handle_mafia_chat field c =
    if not (not_empty (trim field))
    then (c, field)
    else (send_action "chat" (chat_payload (trim field) (some true)) c, "")
