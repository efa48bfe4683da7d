-- ===== src/View/NightPanel.antt =====
-- frontend/src/components/NightPanel.tsx
pub mod Targets
use Prim.Native.String.{String}
use mathlib.Core.Option.{Option, none, some}
use mathlib.Core.List.{List, [], ◌∷◌}
use ai_with_mafia.Types.{Role, mafia, police, Player, Room}
use ai_with_mafia.Store.State.{GameStore, Client, night_payload}
use ai_with_mafia.Store.Connection.{send_action}
use ai_with_mafia.View.Dom.{
  Node, empty, words, element, all_of, each, Handler, on_click, style, kill_click,
  investigate_click,
}
use ai_with_mafia.View.VotePanel.{targets}

-- `ActionButton`; the background under the mouse is left to the browser.
abbrev pub action_button : String → Handler → Node
action_button label handler =
    element "button" (on_click handler ∷ style "background" "transparent" ∷ []) (words label)

unfoldable pub mafia_panel : List Player → Node
unfolding each
mafia_panel ps = element "div" [] (
    all_of (
      element "div" [] (words "마피아 — 제거 대상")
      ∷ element "div" [] (each (λ p. action_button p.name (kill_click p.id)) ps)
      ∷ []))

unfoldable pub police_panel : List Player → Node
unfolding each
police_panel ps = element "div" [] (
    all_of (
      element "div" [] (words "경찰 — 조사 대상")
      ∷ element "div" [] (each (λ p. action_button p.name (investigate_click p.id)) ps)
      ∷ element "div" [] (words "조사 결과 → 채팅창")
      ∷ []))

unfoldable pub citizen_panel : Node
citizen_panel =
    element "div" []
      (all_of (element "span" [] (words "밤") ∷ element "span" [] (words "마피아가 활동 중...") ∷ []))

abbrev pub night_panel_for : Role → List Player → Node
night_panel_for mafia ps = mafia_panel ps
night_panel_for police ps = police_panel ps
night_panel_for _ ps = citizen_panel

abbrev pub night_panel_of : GameStore → Option Room → Node
night_panel_of s none = empty
night_panel_of s (some r) = night_panel_for s.my_role (targets s r)

unfoldable pub night_panel : GameStore → Node
unfolding mafia_panel police_panel citizen_panel targets
night_panel s = night_panel_of s s.room

-- `handleKill`
unfoldable pub handle_kill : String → Client → Client
unfolding send_action
handle_kill id = send_action "kill" (night_payload "kill" id)

-- `handleInvestigate`
unfoldable pub handle_investigate : String → Client → Client
unfolding send_action
handle_investigate id = send_action "investigate" (night_payload "investigate" id)
