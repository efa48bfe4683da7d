-- ===== src/Store/Events/Own.antt =====
-- The player's own id, which no event changes.
use Prim.Native.Nat.{ℕ}
use Prim.Native.String.{String}
use mathlib.Core.Path.{◌≡◌, refl, ◌∙◌}
use mathlib.Core.Bool.{Bool}
use mathlib.Core.Option.{Option, none, some}
use mathlib.Core.List.{List}
use native.Mathlib.Omega.{arith}
use ai_with_mafia.Types.{initial_state, phase_change, vote, night_action, player_joined}
use ai_with_mafia.Store.State.{Client, GameStore, OverlayItem}
use ai_with_mafia.Store.Timer.{start_timer}
use ai_with_mafia.Store.Overlay.{push_overlay}
use ai_with_mafia.Store.Events.{
  Frame, unparsed, unknown_type, event, on_message, on_vote, on_kill, on_night_action,
  on_player_joined, start_timer_if, push_overlay_if,
}

start_timer_if-player_id :
    (d : Option ℕ) (c : Client) → (start_timer_if d c).store.player_id ≡ c.store.player_id
unfolding start_timer
start_timer_if-player_id none c = refl
start_timer_if-player_id (some d) c = refl

push_overlay_if-player_id :
    (o : Option OverlayItem) (c : Client)
    → (push_overlay_if o c).store.player_id ≡ c.store.player_id
unfolding push_overlay
push_overlay_if-player_id none c = refl
push_overlay_if-player_id (some o) c = refl

on_vote-player_id :
    (voter target : Option String) (votes : Option (List (String × String))) (s : GameStore)
    → (on_vote voter target votes s).player_id ≡ s.player_id
unfolding on_vote
on_vote-player_id voter target (some v) s = refl
on_vote-player_id none target none s = refl
on_vote-player_id (some v) none none s = refl
on_vote-player_id (some v) (some t) none s = ground arith

on_night_action-player_id :
    (m kind id : String) (b : Bool) (s : GameStore)
    → (on_night_action m kind id b s).player_id ≡ s.player_id
unfolding on_night_action
on_night_action-player_id m kind id b s = ground arith

on_player_joined-player_id :
    (m id name : String) (s : GameStore) → (on_player_joined m id name s).player_id ≡ s.player_id
unfolding on_player_joined
on_player_joined-player_id m id name s = ground arith

pub on_message-player_id :
    (m : String) (f : Frame) (c : Client) → (on_message m f c).store.player_id ≡ c.store.player_id
unfolding on_message on_kill
on_message-player_id m unparsed c = refl
on_message-player_id m unknown_type c = refl
on_message-player_id m (event (initial_state room none role)) c = refl
on_message-player_id m (event (initial_state room (some g) role)) c = refl
on_message-player_id m (event (phase_change p r d a)) c =
    push_overlay_if-player_id _ _ ∙ start_timer_if-player_id d _
on_message-player_id m (event (vote v t r b)) c = on_vote-player_id v t b c.store
on_message-player_id m (event (night_action k t b)) c = on_night_action-player_id m k t b c.store
on_message-player_id m (event (player_joined id name)) c =
    on_player_joined-player_id m id name c.store
on_message-player_id m (event _) c = refl
