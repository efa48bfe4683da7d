-- ===== src/Store/Steps/Frames.antt =====
-- What a frame of the server leaves alone, and the interval that runs the clock.
use mathlib.Core.Path.{◌≡◌, refl, ap, ◌∙◌}
use Prim.Native.Nat.{ℕ}
use Prim.Native.String.{String}
use mathlib.Core.Option.{Option, none, some}
use mathlib.Core.List.{List, [], ◌∷◌}
use native.Mathlib.Omega.{arith}
use ai_with_mafia.Types.{initial_state, phase_change, game_over}
use ai_with_mafia.Store.State.{Client, OverlayItem, Attempt}
use ai_with_mafia.Store.Timer.{
  clear_timer_interval, drop_interval, clear_interval, start_timer, tick,
}
use ai_with_mafia.Store.Events.{
  Frame, unparsed, unknown_type, event, on_message, start_timer_if, push_overlay_if,
}
use ai_with_mafia.Store.Steps.Link.{link}

-- The part of the client that belongs to the running clock.
abbrev pub clock : Client → List ℕ × Option ℕ
clock c = (c.intervals, c.timer_interval)

abbrev pub to_list : Option ℕ → List ℕ
to_list none = []
to_list (some i) = i ∷ []

-- At most one interval runs, and the client knows its id.
abbrev pub IsClocked : Client → Type 0
IsClocked c = c.intervals ≡ to_list c.timer_interval

start_timer_if-link : (d : Option ℕ) (c : Client) → link (start_timer_if d c) ≡ link c
unfolding start_timer
start_timer_if-link none c = refl
start_timer_if-link (some d) c = refl

push_overlay_if-link : (o : Option OverlayItem) (c : Client) → link (push_overlay_if o c) ≡ link c
push_overlay_if-link none c = refl
push_overlay_if-link (some o) c = refl

pub on_message-link :
    (msg_id : String) (f : Frame) (c : Client) → link (on_message msg_id f c) ≡ link c
unfolding on_message
on_message-link m unparsed c = refl
on_message-link m unknown_type c = refl
on_message-link m (event (initial_state room none role)) c = refl
on_message-link m (event (initial_state room (some g) role)) c = refl
on_message-link m (event (phase_change p r d a)) c =
    push_overlay_if-link _ _ ∙ start_timer_if-link d _
on_message-link m (event _) c = refl

-- The part of the client that the bodies of `connect` read and write between their waits.
abbrev pub plan : Client → List Attempt × ℕ × String
plan c = (c.attempts, c.connect_generation, c.current_room_id)

start_timer_if-plan : (d : Option ℕ) (c : Client) → plan (start_timer_if d c) ≡ plan c
unfolding start_timer
start_timer_if-plan none c = refl
start_timer_if-plan (some d) c = refl

push_overlay_if-plan : (o : Option OverlayItem) (c : Client) → plan (push_overlay_if o c) ≡ plan c
push_overlay_if-plan none c = refl
push_overlay_if-plan (some o) c = refl

pub on_message-plan :
    (msg_id : String) (f : Frame) (c : Client) → plan (on_message msg_id f c) ≡ plan c
unfolding on_message
on_message-plan m unparsed c = refl
on_message-plan m unknown_type c = refl
on_message-plan m (event (initial_state room none role)) c = refl
on_message-plan m (event (initial_state room (some g) role)) c = refl
on_message-plan m (event (phase_change p r d a)) c =
    push_overlay_if-plan _ _ ∙ start_timer_if-plan d _
on_message-plan m (event _) c = refl

pub drop_interval-nil : (c : Client) → IsClocked c → drop_interval c.timer_interval c.intervals ≡ []
unfolding clear_interval
drop_interval-nil c h = ground arith

pub clear_timer_interval-IsClocked : (c : Client) → IsClocked c → IsClocked (clear_timer_interval c)
unfolding clear_timer_interval
clear_timer_interval-IsClocked c h = drop_interval-nil c h

start_timer-IsClocked : (d : ℕ) (c : Client) → IsClocked c → IsClocked (start_timer d c)
unfolding start_timer
start_timer-IsClocked d c h = ap (◌∷◌ c.next_timer) (drop_interval-nil c h)

start_timer_if-IsClocked :
    (d : Option ℕ) (c : Client) → IsClocked c → IsClocked (start_timer_if d c)
start_timer_if-IsClocked none c h = h
start_timer_if-IsClocked (some d) c h = start_timer-IsClocked d c h

push_overlay_if-IsClocked :
    (o : Option OverlayItem) (c : Client) → IsClocked c → IsClocked (push_overlay_if o c)
push_overlay_if-IsClocked none c h = h
push_overlay_if-IsClocked (some o) c h = h

pub tick-IsClocked : (c : Client) → IsClocked c → IsClocked (tick c)
unfolding tick
tick-IsClocked c h = ground (arith, drop_interval-nil c h)

pub on_message-IsClocked :
    (msg_id : String) (f : Frame) (c : Client) → IsClocked c → IsClocked (on_message msg_id f c)
unfolding on_message
on_message-IsClocked m unparsed c h = h
on_message-IsClocked m unknown_type c h = h
on_message-IsClocked m (event (initial_state room none role)) c h = drop_interval-nil c h
on_message-IsClocked m (event (initial_state room (some g) role)) c h =
    start_timer-IsClocked g.timer_remaining_sec (clear_timer_interval c)
      (clear_timer_interval-IsClocked c h)
on_message-IsClocked m (event (phase_change p r d a)) c h =
    push_overlay_if-IsClocked _ _ (start_timer_if-IsClocked d _ h)
on_message-IsClocked m (event (game_over r)) c h = drop_interval-nil c h
on_message-IsClocked m (event _) c h = h

pub tick-link : (c : Client) → link (tick c) ≡ link c
unfolding tick
tick-link c = ground arith
