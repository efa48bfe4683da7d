-- ===== src/View/GameRoom/Powers.antt =====
-- What a player can do in the room during each phase.
use mathlib.Core.Path.{◌≡◌, refl, ◌∙◌}
use mathlib.Core.Option.{Option, none, some}
use mathlib.Core.List.{List, [], map, append-nil}
use ai_with_mafia.Types.{Phase, day_discussion, day_vote, night, Phase.result as result_phase, Room}
use ai_with_mafia.Store.State.{GameStore}
use ai_with_mafia.View.Dom.{Handler, clicks, vote_click}
use ai_with_mafia.View.VotePanel.{targets, vote_panel}
use ai_with_mafia.View.VotePanel.Tally.{clicks-vote_panel}
use ai_with_mafia.View.NightPanel.{night_panel}
use ai_with_mafia.View.NightPanel.Targets.{night_power, clicks-night_panel}
use ai_with_mafia.View.GameRoom.{action_panel, action_panel_for}

-- What the action panel offers in a phase.
abbrev pub phase_power : Option Phase → GameStore → Room → List Handler
phase_power (some day_vote) s r = map (λ p. vote_click p.id) (targets s r)
phase_power (some night) s r = night_power s.my_role (targets s r)
phase_power _ s r = []

action_panel_for-clicks :
    (s : GameStore) (r : Room) (phase : Option Phase)
    → s.room ≡ some r
    → clicks (action_panel_for phase s) ≡ phase_power phase s r
unfolding clicks
action_panel_for-clicks s r none here = refl
action_panel_for-clicks s r (some day_discussion) here = refl
action_panel_for-clicks s r (some result_phase) here = refl
action_panel_for-clicks s r (some day_vote) here =
    append-nil (clicks (vote_panel s)) ∙ clicks-vote_panel s r here
action_panel_for-clicks s r (some night) here =
    append-nil (clicks (night_panel s)) ∙ clicks-night_panel s r here

-- In a room, the action panel offers the votes in the phase of the vote, the acts of one's role at
-- night, and nothing in any other phase.
pub clicks-action_panel :
    (s : GameStore) (r : Room) → s.room ≡ some r → clicks (action_panel s) ≡ phase_power s.phase s r
unfolding action_panel
clicks-action_panel s r here = action_panel_for-clicks s r s.phase here
