-- ===== src/View/PlayerList.antt =====
-- frontend/src/components/PlayerList.tsx. The component reads a field `role` that the type `Player`
-- does not have: it is the argument `role_field`.
use Prim.Native.Nat.{ℕ, ◌+◌}
use Prim.Native.String.{String, ◌++◌ as append}
use mathlib.Core.Bool.{not}
use mathlib.Core.Option.{Option, none, some}
use mathlib.Core.List.{[], ◌∷◌}
use text.Mathlib.Text.{◌==◌}
use ai_with_mafia.Common.Tests.{if◌then◌else◌}
use ai_with_mafia.Common.Lists.{any, length}
use ai_with_mafia.Common.Text.{decimal, pad_two}
use ai_with_mafia.Types.{Role, mafia, police, citizen, unassigned, Player, Room}
use ai_with_mafia.Store.State.{GameStore}
use ai_with_mafia.View.Dom.{Node, empty, words, element, all_of, when, each_from, style}

-- `ROLE_LABELS`
abbrev pub role_label : Role → String
role_label mafia = "마피아"
role_label police = "경찰"
role_label citizen = "시민"
role_label unassigned = ""

-- `deadRole && …`: the empty role is not shown.
abbrev pub revealed : Option Role → Node
revealed none = empty
revealed (some unassigned) = empty
revealed (some role) = element "div" [] (element "span" [] (words (role_label role)))

module _ (role_field : Player → Option Role) where
  unfoldable pub player_row : GameStore → Room → ℕ → Player → Node
  unfolding any pad_two
  player_row s r i p =
      let alive = any (λ a. a == p.id) s.alive_player_ids in
      element "div" [] (
        all_of (
          element "span" [] (words (pad_two (i + 1)))
          ∷ element "span" (style "background" (if alive then "#3A6A3A" else "#8C1F1F") ∷ []) empty
          ∷ element "div" [] (
              all_of (
                element "div" [] (
                  all_of (
                    element "span"
                      (style "color" (if alive then "#ECE7DE" else "#4A4438")
                        ∷ style "textDecoration" (if alive then "none" else "line-through")
                        ∷ [])
                      (words p.name)
                    ∷ when (p.id == s.player_id) (element "span" [] (words "ME"))
                    ∷ when (p.id == r.host_id) (element "span" [] (words "HOST"))
                    ∷ []))
                ∷ when (not alive) (revealed (role_field p))
                ∷ []))
          ∷ when (not alive) (element "span" [] (words "사망"))
          ∷ []))

  abbrev pub player_list_of : GameStore → Option Room → Node
  player_list_of s none = empty
  player_list_of s (some r) = element "div" [] (
      all_of (
        element "div" [] (words (append "Players · " (decimal (length r.players))))
        ∷ element "div" [] (each_from 0 (player_row s r) r.players)
        ∷ []))

  unfoldable pub player_list : GameStore → Node
  unfolding player_row each_from decimal
  player_list s = player_list_of s s.room
