-- ===== src/View/ResultOverlay/Offers.antt =====
-- What the overlay of the result offers.
use Prim.Native.Nat.{ℕ}
use Prim.Native.String.{String}
use mathlib.Core.Path.{◌≡◌, refl}
use mathlib.Core.Bool.{Bool, true, false}
use mathlib.Core.Option.{Option, some}
use mathlib.Core.List.{[], ◌∷◌, ◌++◌, append-nil}
use text.Mathlib.Text.{◌==◌}
use ai_with_mafia.Common.Tests.{if◌then◌else◌}
use ai_with_mafia.Common.Text.{truthy}
use ai_with_mafia.Types.{Room, GameOverResult, GameOverResultPlayer}
use ai_with_mafia.Store.State.{GameStore}
use ai_with_mafia.View.Dom.{
  Node, Handler, words, element, on_click, when, clicks, clicks-each_from_none, leave_click,
  restart_click,
}
use ai_with_mafia.View.ResultOverlay.{result_row, result_overlay_of, result_overlay}

clicks-when_button :
    (b : Bool) (h : Handler) (t : String)
    → clicks (when b (element "button" (on_click h ∷ []) (words t))) ≡ (if b then h ∷ [] else [])
unfolding clicks
clicks-when_button true h t = refl
clicks-when_button false h t = refl

result_row-clicks : (i : ℕ) (p : GameOverResultPlayer) → clicks (result_row i p) ≡ []
unfolding result_row clicks
result_row-clicks i p = refl

result_overlay_of-clicks :
    (banner : Node) (s : GameStore) (g : GameOverResult) (r : Room)
    → clicks (result_overlay_of banner s (some g) (some r))
      ≡ clicks banner ++ leave_click ∷ (if r.host_id == s.player_id then restart_click ∷ [] else [])
unfolding clicks result_overlay
result_overlay_of-clicks banner s g r =
    rw
      (
        clicks-each_from_none 0 result_row g.players result_row-clicks,
        clicks-when_button (r.host_id == s.player_id) restart_click "다시 시작",
        append-nil,
        append-nil,
      )
      refl

-- With a result and a room, the overlay offers, besides the advertisement, to leave, and to the host
-- alone to start again.
clicks-result_overlay :
    (room_id : Option String) (banner : Node) (s : GameStore) (g : GameOverResult) (r : Room)
    → truthy room_id ≡ true
    → s.result ≡ some g
    → s.room ≡ some r
    → clicks (result_overlay room_id banner s)
      ≡ clicks banner ++ leave_click ∷ (if r.host_id == s.player_id then restart_click ∷ [] else [])
unfolding result_overlay
clicks-result_overlay room_id banner s g r id over here =
    rw (id, over, here) (result_overlay_of-clicks banner s g r)
