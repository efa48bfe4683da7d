-- ===== src/View/VotePanel.antt =====
-- frontend/src/components/VotePanel.tsx
pub mod Tally
use Prim.Native.Nat.{ℕ, ◌+◌, ◌*◌, ◌/◌}
use Prim.Native.String.{String, ◌++◌ as append}
use mathlib.Core.Bool.{Bool, false, ◌&&◌, not}
use mathlib.Core.Option.{Option, none, some}
use mathlib.Core.List.{List, [], ◌∷◌}
use text.Mathlib.Text.{◌==◌}
use ai_with_mafia.Common.Tests.{if◌then◌else◌, eqb, or_else}
use ai_with_mafia.Common.Lists.{any, filter}
use ai_with_mafia.Common.Text.{decimal, truthy}
use ai_with_mafia.Common.Assoc.{lookup, insert, values}
use ai_with_mafia.Types.{Player, Room}
use ai_with_mafia.Store.State.{GameStore, Client, vote_payload}
use ai_with_mafia.Store.Connection.{send_action}
use ai_with_mafia.View.Dom.{
  Node, empty, words, element, all_of, when, each, on_click, style, vote_click,
}

-- `aliveSet.has(p.id) && p.id !== playerID`, the filter of VotePanel and of NightPanel
abbrev pub is_target : GameStore → Player → Bool
is_target s p = any (λ a. a == p.id) s.alive_player_ids && not (p.id == s.player_id)

unfoldable pub targets : GameStore → Room → List Player
unfolding any filter
targets s r = filter (is_target s) r.players

-- The loop over `Object.values(votes)`: one more vote for each target.
unfoldable pub tally : List (String × ℕ) → List String → List (String × ℕ)
unfolding lookup insert
tally counts [] = counts
tally counts (t ∷ ts) = tally (insert t (or_else (lookup t counts) 0 + 1) counts) ts

-- `reduce((a, b) => a + b, 0)`
unfoldable pub total : List ℕ → ℕ
total [] = 0
total (n ∷ ns) = n + total ns

unfoldable pub vote_counts : List (String × String) → List (String × ℕ)
unfolding tally
vote_counts votes = tally [] (values votes)

-- `Math.round(pct * 100)` with `pct` the share of the votes, or 0 if there is none. The quotient is
-- exact here, and a double in the source.
unfoldable pub percent : ℕ → ℕ → ℕ
percent count all = if eqb all 0 then 0 else (200 * count + all) / (2 * all)

abbrev pub is_mine : Option String → String → Bool
is_mine none id = false
is_mine (some v) id = v == id

unfoldable pub vote_row : Option String → ℕ → ℕ → Player → Node
unfolding decimal percent
vote_row my_vote count all p =
    element "button"
      (on_click (vote_click p.id)
        ∷ style "background"
            (if is_mine my_vote p.id then "rgba(140,31,31,0.18)" else "transparent")
        ∷ [])
      (all_of (
        element "div"
          (style "background" (if is_mine my_vote p.id then "#8C1F1F" else "#2E2820")
            ∷ style "width" (append (decimal (percent count all)) "%")
            ∷ [])
          empty
        ∷ element "div" [] (
            all_of (
              element "span" (style "color" "#ECE7DE" ∷ []) (words p.name)
              ∷ element "span" [] (words (append (decimal count) "표"))
              ∷ []))
        ∷ []))

abbrev pub vote_panel_of : GameStore → Option Room → Node
vote_panel_of s none = empty
vote_panel_of s (some r) =
    let counts = vote_counts s.votes in
    let all = total (values counts) in
    let my_vote = lookup s.player_id s.votes in
    element "div" [] (
      all_of (
        element "div" [] (words "투표 — 처형 대상")
        ∷ element "div" []
            (each (λ p. vote_row my_vote (or_else (lookup p.id counts) 0) all p) (targets s r))
        ∷ when (truthy my_vote) (element "div" [] (words "투표 완료 — 결과 대기 중"))
        ∷ []))

unfoldable pub vote_panel : GameStore → Node
unfolding vote_counts total lookup each vote_row targets
vote_panel s = vote_panel_of s s.room

-- `handleVote`
unfoldable pub handle_vote : String → Client → Client
unfolding send_action
handle_vote id = send_action "vote" (vote_payload id)
