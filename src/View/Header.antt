-- ===== src/View/Header.antt =====
-- frontend/src/components/PhaseHeader.tsx. Its label is measured as in View/Measure.
use Prim.Native.Nat.{ℕ, ◌/◌, ◌%◌}
use Prim.Native.String.{String, ◌++◌ as append}
use mathlib.Core.Bool.{Bool, true, false, ◌&&◌}
use mathlib.Core.Option.{Option, none, some}
use mathlib.Core.List.{[], ◌∷◌}
use ai_with_mafia.Common.Tests.{if◌then◌else◌, ltb, leb}
use ai_with_mafia.Common.Text.{decimal, pad_two}
use ai_with_mafia.Types.{Phase, day_discussion, day_vote, night, Phase.result as result_phase}
use ai_with_mafia.Store.State.{GameStore}
use ai_with_mafia.View.Dom.{
  Node, empty, words, element, all_of, when, on_click, style, prop, toggle_fullscreen,
}

-- `FullscreenButton`, by whether the document is in full screen.
abbrev pub fullscreen_button : Bool → Node
fullscreen_button is_full =
    element "button"
      (on_click toggle_fullscreen ∷ prop "title" (if is_full then "풀스크린 해제" else "풀스크린") ∷ [])
      (words (if is_full then "✕" else "⛶"))

-- `PHASE_LABELS`
abbrev pub phase_label : Phase → String
phase_label day_discussion = "낮 — 토론"
phase_label day_vote = "낮 — 투표"
phase_label night = "밤"
phase_label result_phase = "종료"

abbrev pub is_night : Phase → Bool
is_night night = true
is_night _ = false

-- `timerStr`
unfoldable pub timer_text : ℕ → String
unfolding decimal pad_two
timer_text sec =
    if ltb 0 (sec / 60)
    then append (decimal (sec / 60)) (append ":" (pad_two (sec % 60)))
    else append (decimal (sec % 60)) "s"

abbrev pub is_urgent : ℕ → Bool
is_urgent sec = ltb 0 sec && leb sec 10

abbrev pub phase_header_of : Bool → GameStore → Option Phase → Node
phase_header_of is_full s none = empty
phase_header_of is_full s (some phase) =
    element "div"
      (style "background" (if is_night phase then "rgba(14,12,9,0.98)" else "#0E0C09") ∷ [])
      (all_of (
        element "div" [] (
          all_of (
            element "span" [] (words (phase_label phase))
            ∷ element "span" [] (words (append "ROUND " (decimal s.round)))
            ∷ []))
        ∷ element "div" [] (
            all_of (
              when (ltb 0 s.timer_remaining_sec) (
                element "span"
                  (style "color" (if is_urgent s.timer_remaining_sec then "#8C1F1F" else "#C4963A")
                    ∷ [])
                  (words (timer_text s.timer_remaining_sec)))
              ∷ fullscreen_button is_full
              ∷ []))
        ∷ []))

unfoldable pub phase_header : Bool → GameStore → Node
unfolding timer_text
phase_header is_full s = phase_header_of is_full s s.phase
