-- ===== src/View/NightPanel/Targets.antt =====
-- Whom the panels of the night and of the vote let a player act on.
use mathlib.Core.Path.{◌≡◌, refl, sym, subst}
use mathlib.Core.Logic.{◌≢◌}
use mathlib.Core.Bool.{true}
use mathlib.Core.Option.{some}
use mathlib.Core.List.{List, [], map, append-nil}
use native.Mathlib.Omega.{arith}
use text.Mathlib.Text.{◌==◌}
use text.Mathlib.TextEquality.{eq_iff}
use ai_with_mafia.Common.Lists.{any, All, All-of_filter}
use ai_with_mafia.Types.{Role, mafia, police, citizen, unassigned, Player, Room}
use ai_with_mafia.Store.State.{GameStore}
use ai_with_mafia.View.Dom.{Handler, clicks, clicks-each, kill_click, investigate_click}
use ai_with_mafia.View.VotePanel.{targets, is_target}
use ai_with_mafia.View.NightPanel.{
  mafia_panel, police_panel, citizen_panel, night_panel_for, night_panel_of, night_panel,
}

-- Whom a panel offers is alive and is not oneself.
pub targets-All :
    (s : GameStore) (r : Room)
    → All
        (λ p. (any (λ a. a == p.id) s.alive_player_ids ≡ true) × (p.id ≢ s.player_id))
        (targets s r)
unfolding targets
targets-All s r =
    All-of_filter _ (is_target s) r.players
      (λ p h. (ground arith, λ e. ground (arith, h, eq_iff p.id s.player_id)))

-- What a role can do to a player at night.
abbrev pub night_power : Role → List Player → List Handler
night_power mafia ps = map (λ p. kill_click p.id) ps
night_power police ps = map (λ p. investigate_click p.id) ps
night_power citizen ps = []
night_power unassigned ps = []

night_panel_for-clicks :
    (role : Role) (ps : List Player) → clicks (night_panel_for role ps) ≡ night_power role ps
unfolding mafia_panel police_panel citizen_panel clicks
night_panel_for-clicks mafia ps =
    rw (clicks-each _ (λ p. kill_click p.id) ps (λ p. refl), append-nil) refl
night_panel_for-clicks police ps =
    rw (clicks-each _ (λ p. investigate_click p.id) ps (λ p. refl), append-nil) refl
night_panel_for-clicks citizen ps = refl
night_panel_for-clicks unassigned ps = refl

-- In a room, the mafia is offered one kill, and the police one investigation, for each living
-- player other than oneself; everybody else is offered nothing.
pub clicks-night_panel :
    (s : GameStore) (r : Room)
    → s.room ≡ some r
    → clicks (night_panel s) ≡ night_power s.my_role (targets s r)
unfolding night_panel
clicks-night_panel s r here =
    subst (λ o. clicks (night_panel_of s o) ≡ night_power s.my_role (targets s r)) (sym here)
      (night_panel_for-clicks s.my_role (targets s r))
