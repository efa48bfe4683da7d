-- ===== src/View/WaitingRoom/Start.antt =====
-- Who can start the game.
use Prim.Native.Nat.{ℕ}
use mathlib.Core.Path.{◌≡◌, refl, sym, subst}
use mathlib.Core.Logic.{inl, inr}
use mathlib.Core.Bool.{◌&&◌}
use mathlib.Core.Option.{some}
use mathlib.Core.List.{[], ◌∷◌, ◌++◌, append-nil}
use text.Mathlib.Text.{◌==◌}
use ai_with_mafia.Common.Tests.{if◌then◌else◌, leb, Bool-cases}
use ai_with_mafia.Common.Lists.{length}
use ai_with_mafia.Common.Text.{truthy}
use ai_with_mafia.Types.{Player, Room}
use ai_with_mafia.Store.State.{GameStore}
use ai_with_mafia.View.Dom.{
  Node, words, element, clicks, clicks-each_from_none, clicks-when_none, start_click,
}
use ai_with_mafia.View.WaitingRoom.{
  is_private, join_code_box, waiting_row, start_or_wait, waiting_room_of, waiting_room,
}

waiting_row-clicks :
    (s : GameStore) (r : Room) (i : ℕ) (p : Player) → clicks (waiting_row s r i p) ≡ []
unfolding waiting_row clicks
waiting_row-clicks s r i p =
    rw
      (
        clicks-when_none (p.id == r.host_id) (element "span" [] (words "HOST")) refl,
        clicks-when_none (p.id == s.player_id) (element "span" [] (words "ME")) refl,
      )
      refl

start_or_wait-clicks :
    (s : GameStore) (r : Room)
    → clicks (start_or_wait s r)
      ≡ (if (r.host_id == s.player_id) && leb 1 (length r.players) then start_click ∷ [] else [])
unfolding clicks
start_or_wait-clicks s r = elim (Bool-cases (r.host_id == s.player_id)) [
  | inl host ↦ elim (Bool-cases (leb 1 (length r.players))) [
    | inl someone ↦ rw (host, someone) refl
    | inr nobody ↦ rw (host, nobody) refl
  ]
  | inr guest ↦ rw guest refl
]

waiting_room_of-clicks :
    (banner : Node) (s : GameStore) (r : Room)
    → clicks (waiting_room_of banner s (some r))
      ≡ clicks banner
        ++ (if (r.host_id == s.player_id) && leb 1 (length r.players) then start_click ∷ [] else [])
unfolding waiting_room clicks
waiting_room_of-clicks banner s r =
    rw
      (
        clicks-when_none (is_private r.visibility && truthy r.join_code) (join_code_box r) refl,
        clicks-each_from_none 0 (waiting_row s r) r.players (waiting_row-clicks s r),
        start_or_wait-clicks s r,
        append-nil,
      )
      refl

-- The waiting room offers, besides the advertisement, the start of the game: to the host alone, and
-- only when somebody is in the room.
clicks-waiting_room :
    (banner : Node) (s : GameStore) (r : Room)
    → s.room ≡ some r
    → clicks (waiting_room banner s)
      ≡ clicks banner
        ++ (if (r.host_id == s.player_id) && leb 1 (length r.players) then start_click ∷ [] else [])
unfolding waiting_room
clicks-waiting_room banner s r here =
    subst
      (λ o.
        clicks (waiting_room_of banner s o)
        ≡ clicks banner
          ++ (if (r.host_id == s.player_id) && leb 1 (length r.players)
              then start_click ∷ []
              else []))
      (sym here) (waiting_room_of-clicks banner s r)
