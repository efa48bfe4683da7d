-- ===== src/Store/Steps/Kept.antt =====
-- What every input but a frame of the server and the restart button leaves alone.
use Prim.Native.Nat.{ℕ}
use Prim.Native.String.{String}
use mathlib.Core.Path.{◌≡◌, refl}
use mathlib.Core.Bool.{Bool, true, false}
use mathlib.Core.Option.{Option, none, some}
use mathlib.Core.List.{List}
use native.Mathlib.Omega.{arith}
use ai_with_mafia.Common.Lists.{find}
use ai_with_mafia.Types.{ChatMessage, GameOverResult}
use ai_with_mafia.Store.State.{Client, Attempt, Stage, importing, awaiting_token, Outgoing}
use ai_with_mafia.Store.Timer.{tick}
use ai_with_mafia.Store.Overlay.{shift_overlay}
use ai_with_mafia.Store.Connection.{
  Location, is_waiting, token_ready, after_token, finish_attempt, resume, connect, imported,
  reconnect, disconnect, send_action, send_to,
}
use ai_with_mafia.Store.Steps.{
  Input, connects, disconnects, sends, shifts, clears_result, imports, tokens, rejects, opens,
  receives, closes, expires, ticks, step,
}
use ai_with_mafia.Types.{Room}

-- The messages, the result and the room.
abbrev pub kept : Client → List ChatMessage × Option GameOverResult × Option Room
kept c = (c.store.messages, c.store.result, c.store.room)

after_token-kept :
    (loc : Location) (g : ℕ) (room_id player_id token : String) (c : Client)
    → kept (after_token loc g room_id player_id token c) ≡ kept c
unfolding after_token
after_token-kept loc g room_id player_id token c = ground arith

finish_attempt-kept :
    (loc : Location) (token : String) (st : Stage) (a : Attempt) (c : Client)
    → kept (finish_attempt loc token st a c) ≡ kept c
finish_attempt-kept loc token importing a c = refl
finish_attempt-kept loc token (awaiting_token p) a c =
    after_token-kept loc a.generation a.room_id p token c

resume-kept :
    (loc : Location) (g : ℕ) (token : String) (o : Option Attempt) (c : Client)
    → kept (resume loc g token o c) ≡ kept c
resume-kept loc g token none c = refl
resume-kept loc g token (some a) c = finish_attempt-kept loc token a.stage a _

send_to-kept : (o : Option ℕ) (f : Outgoing) (c : Client) → kept (send_to o f c) ≡ kept c
send_to-kept none f c = refl
send_to-kept (some h) f c = refl

abbrev pub is_frame : Input → Bool
is_frame (receives h m f) = true
is_frame _ = false

abbrev pub is_clears : Input → Bool
is_clears clears_result = true
is_clears _ = false

pub step-kept :
    (loc : Location) (i : Input) (c : Client)
    → is_frame i ≡ false
    → is_clears i ≡ false
    → kept (step loc i c) ≡ kept c
unfolding step connect imported reconnect send_action token_ready disconnect tick shift_overlay
step-kept loc (connects room_id) c h k = refl
step-kept loc disconnects c h k = refl
step-kept loc (sends kind payload) c h k = send_to-kept c.ws _ c
step-kept loc shifts c h k = refl
step-kept loc clears_result c h k = cc
step-kept loc (imports g player_id) c h k = refl
step-kept loc (tokens g token) c h k = resume-kept loc g token (find (is_waiting g) c.attempts) c
step-kept loc (rejects g) c h k = refl
step-kept loc (opens j) c h k = ground arith
step-kept loc (receives j m f) c h k = cc
step-kept loc (closes j) c h k = ground arith
step-kept loc (expires t) c h k = ground arith
step-kept loc (ticks t) c h k = ground arith
