-- ===== src/Store/Events/Kept.antt =====
-- The room, the chat log and the result, where an event leaves them alone.
use Prim.Native.Nat.{ℕ}
use Prim.Native.String.{String}
use mathlib.Core.Path.{◌≡◌, refl, ◌∙◌}
use mathlib.Core.Option.{Option, none, some}
use mathlib.Core.List.{List}
use native.Mathlib.Omega.{arith}
use ai_with_mafia.Types.{Phase, Room, ChatMessage, GameOverResult}
use ai_with_mafia.Store.State.{Client, GameStore, OverlayItem}
use ai_with_mafia.Store.Timer.{start_timer}
use ai_with_mafia.Store.Overlay.{push_overlay, build_phase_overlay}
use ai_with_mafia.Store.Events.{
  on_vote, start_timer_if, push_overlay_if, on_phase_change, change_phase,
}

abbrev pub shown : GameStore → Option Room × List ChatMessage × Option GameOverResult
shown s = (s.room, s.messages, s.result)

start_timer_if-shown :
    (d : Option ℕ) (c : Client) → shown (start_timer_if d c).store ≡ shown c.store
unfolding start_timer
start_timer_if-shown none c = refl
start_timer_if-shown (some d) c = refl

push_overlay_if-shown :
    (o : Option OverlayItem) (c : Client) → shown (push_overlay_if o c).store ≡ shown c.store
unfolding push_overlay
push_overlay_if-shown none c = refl
push_overlay_if-shown (some o) c = refl

-- The clock and the overlay of a phase change touch none of them.
pub on_phase_change-shown :
    (p : Phase) (r d : Option ℕ) (a : Option (List String)) (c : Client)
    → shown (on_phase_change p r d a c).store ≡ shown (change_phase p r a c).store
unfolding on_phase_change
on_phase_change-shown p r d a c =
    push_overlay_if-shown (build_phase_overlay p r _) _
    ∙ start_timer_if-shown d (change_phase p r a c)

pub on_vote-shown :
    (voter target : Option String) (votes : Option (List (String × String))) (s : GameStore)
    → shown (on_vote voter target votes s) ≡ shown s
unfolding on_vote
on_vote-shown voter target (some v) s = refl
on_vote-shown none target none s = refl
on_vote-shown (some v) none none s = refl
on_vote-shown (some v) (some t) none s = ground arith
