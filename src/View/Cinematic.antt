-- ===== src/View/Cinematic.antt =====
-- frontend/src/components/CinematicOverlay.tsx: what it shows of the overlay queue, and the effect
-- that takes an overlay away when its time is over.
pub mod Laws
use Prim.Native.Nat.{ℕ, zero, suc}
use Prim.Native.String.{String}
use mathlib.Core.Bool.{Bool, true, false, ◌&&◌}
use mathlib.Core.Option.{Option, none, some}
use mathlib.Core.List.{List, [], ◌∷◌, ◌++◌}
use text.Mathlib.Text.{◌==◌}
use ai_with_mafia.Common.Tests.{if◌then◌else◌, eqb, or_else}
use ai_with_mafia.Common.Text.{truthy}
use ai_with_mafia.Common.Lists.{drop_one}
use ai_with_mafia.Types.{Role, mafia, police}
use ai_with_mafia.Store.State.{
  OverlayItem, OverlayType, phase_overlay, kill_overlay, elim_overlay, OverlayTheme, day,
  vote_theme, night_theme, elim_theme, killed, RolePill,
}
use ai_with_mafia.View.Dom.{
  Node, empty, words, element, all_of, when, each, on_click, style, shift_click,
}

pub record ThemeStyle : Type 0 where
  pub bg : String
  pub eyebrow_color : String
  pub title_color : String
  pub stamp_color : String

-- `THEME_STYLES`
abbrev pub theme_style : OverlayTheme → ThemeStyle
theme_style day = record {
  bg = "radial-gradient(ellipse at center, #1A1508 0%, #0E0C09 60%, #0A0900 100%)";
  eyebrow_color = "#C4963A";
  title_color = "#ECE7DE";
  stamp_color = "#C4963A";
}
theme_style vote_theme = record {
  bg = "radial-gradient(ellipse at center, #180808 0%, #100606 60%, #0A0404 100%)";
  eyebrow_color = "#C4963A";
  title_color = "#ECE7DE";
  stamp_color = "#8C1F1F";
}
theme_style night_theme = record {
  bg = "radial-gradient(ellipse at center, #0C0810 0%, #060406 60%, #030204 100%)";
  eyebrow_color = "#9B8EBF";
  title_color = "#D8D0F0";
  stamp_color = "#9B8EBF";
}
theme_style elim_theme = record {
  bg = "radial-gradient(ellipse at center, #180808 0%, #0A0606 60%, #050303 100%)";
  eyebrow_color = "#8C1F1F";
  title_color = "#ECE7DE";
  stamp_color = "#8C1F1F";
}
theme_style killed = record {
  bg = "#000000";
  eyebrow_color = "#8C1F1F";
  title_color = "#C8C0B8";
  stamp_color = "#786F62";
}

-- `ROLE_PILL_COLORS`, as the three colours of a pill.
abbrev pub pill_style : Role → String × String × String
pill_style mafia = ("rgba(140,31,31,0.15)", "#8C1F1F", "#C87070")
pill_style police = ("rgba(155,142,191,0.15)", "#9B8EBF", "#C8C0F8")
pill_style _ = ("rgba(120,111,98,0.15)", "#786F62", "#B8B0A8")

abbrev pub pill : RolePill → Node
pill p =
    let colours = pill_style p.role in
    element "div"
      (style "background" colours.0 ∷ style "border" colours.1 ∷ style "color" colours.2 ∷ [])
      (words p.label)

-- `{text && <div>{text}</div>}`
abbrev pub optional_line : String → Option String → Node
optional_line colour line =
    when (truthy line) (element "div" (style "color" colour ∷ []) (words (or_else line "")))

abbrev pub pills : Option (List RolePill) → Node
pills none = empty
pills (some []) = empty
pills (some (p ∷ ps)) = element "div" [] (each pill (p ∷ ps))

abbrev pub theme_text : OverlayTheme → String
theme_text day = "day"
theme_text vote_theme = "vote"
theme_text night_theme = "night"
theme_text elim_theme = "elim"
theme_text killed = "killed"

unfoldable pub cinematic_overlay : List OverlayItem → Node
unfolding each
cinematic_overlay [] = empty
cinematic_overlay (current ∷ queue) =
    let theme = theme_style current.theme in
    element "div" (on_click shift_click ∷ style "background" theme.bg ∷ []) (
      all_of (
        element "div" [] empty
        ∷ element "div" [] empty
        ∷ element "div" [] (
            all_of (
              optional_line theme.eyebrow_color current.eyebrow
              ∷ element "div" (style "color" theme.title_color ∷ []) (words current.title)
              ∷ optional_line theme.eyebrow_color current.hint
              ∷ pills current.role_pills
              ∷ optional_line theme.stamp_color current.stamp
              ∷ element "div"
                  (style "color"
                      (if theme_text current.theme == "killed" then "#3A3530" else "#2E2820")
                    ∷ [])
                  (words "클릭하여 건너뛰기")
              ∷ []))
        ∷ []))

abbrev pub type_text : OverlayType → String
type_text phase_overlay = "phase"
type_text kill_overlay = "kill"
type_text elim_overlay = "elim"

-- Whether the dependencies of the effect are the same for two overlays.
unfoldable pub same_item : OverlayItem → OverlayItem → Bool
same_item a b =
    (type_text a.kind == type_text b.kind)
    && (a.title == b.title)
    && (theme_text a.theme == theme_text b.theme)
    && eqb a.duration_ms b.duration_ms

-- The same for two queues, by their heads.
abbrev pub same_head : List OverlayItem → List OverlayItem → Bool
same_head [] [] = true
same_head [] (b ∷ bs) = false
same_head (a ∷ rest) [] = false
same_head (a ∷ rest) (b ∷ bs) = same_item a b

-- The queue, and the delay of the effect's timeout while it is pending.
pub record Projector : Type 0 where
  pub queue : List OverlayItem
  pub timer : Option ℕ

-- The effect's body.
abbrev pub arm : List OverlayItem → Option ℕ
arm [] = none
arm (current ∷ queue) = some current.duration_ms

-- The component is mounted: the effect runs.
unfoldable pub mounted : List OverlayItem → Projector
mounted queue = record { queue = queue; timer = arm queue }

-- The queue has changed: the effect is cleaned up and runs again unless its dependencies are the
-- same.
unfoldable pub rendered : List OverlayItem → Projector → Projector
unfolding same_item
rendered queue s = record {
  queue = queue;
  timer = if same_head s.queue queue then s.timer else arm queue;
}

-- The timeout fires and calls `shiftOverlay`.
abbrev pub fire : Option ℕ → Projector → Projector
fire none s = s
fire (some t) s = rendered (drop_one s.queue) (record s { timer = none })

unfoldable pub timer_fires : Projector → Projector
unfolding rendered
timer_fires s = fire s.timer s

-- A click calls `shiftOverlay` too.
unfoldable pub overlay_clicked : Projector → Projector
unfolding rendered
overlay_clicked s = rendered (drop_one s.queue) s

-- The store has another overlay.
unfoldable pub overlay_pushed : OverlayItem → Projector → Projector
unfolding rendered
overlay_pushed item s = rendered (s.queue ++ item ∷ []) s

unfoldable pub fires_times : ℕ → Projector → Projector
unfolding timer_fires
fires_times zero s = s
fires_times (suc n) s = fires_times n (timer_fires s)
