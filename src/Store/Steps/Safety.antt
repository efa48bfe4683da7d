-- ===== src/Store/Steps/Safety.antt =====
-- What holds of the client after any inputs: one live connection, one clock, one reconnect.
use Prim.Native.Nat.{ℕ}
use Prim.Native.String.{String}
use mathlib.Core.Path.{◌≡◌, refl, sym, ◌∙◌}
use mathlib.Core.Logic.{◌⊎◌, inl}
use mathlib.Core.Bool.{false, false≢true}
use mathlib.Core.Option
use mathlib.Core.Option.{Option, none, some}
use mathlib.Core.List.{List, [], ◌∷◌}
use native.Mathlib.Omega.{arith}
use native.Mathlib.Decide.{ℕ_discrete}
use ai_with_mafia.Common.Lists.{get_elem?, find}
use ai_with_mafia.Store.State.{
  Client, Socket, Stage, Attempt, importing, awaiting_token, Outgoing, initial_client,
}
use ai_with_mafia.Store.Timer.{clear_reconnect_timer}
use ai_with_mafia.Store.Connection.{
  Location, connect, imported, is_waiting, token_ready, after_token, finish_attempt, resume,
  reconnect, disconnect, send_to, send_action,
}
use ai_with_mafia.Store.Steps.{
  Input, connects, disconnects, sends, shifts, clears_result, imports, tokens, rejects, opens,
  receives, closes, expires, ticks, step, run,
}
use ai_with_mafia.Store.Steps.Link.{link, is_over, IsAwaited, IsWired}
use ai_with_mafia.Store.Steps.Frames.{
  IsClocked, tick-IsClocked, clear_timer_interval-IsClocked, on_message-IsClocked,
}
use ai_with_mafia.Store.Steps.Wiring.{step-IsWired}

pub initial-IsWired : IsWired (link initial_client)
unfolding initial_client
initial-IsWired = record {
  retired = λ h s e n. cc;
  timer = inl refl;
  delay = (omega arith, omega arith);
}

pub run-IsWired :
    (loc : Location) (is : List Input) (c : Client)
    → IsWired (link c)
    → IsWired (link (run loc is c))
unfolding run
run-IsWired loc [] c w = w
run-IsWired loc (i ∷ is) c w = run-IsWired loc is (step loc i c) (step-IsWired loc i c w)

pub live-ws :
    (c : Client) (h : ℕ) (s : Socket)
    → get_elem? c.sockets h ≡ some s
    → is_over s.ready_state ≡ false
    → IsWired (link c)
    → c.ws ≡ some h
live-ws c h s e live w = elim (Option.discrete ℕ_discrete c.ws (some h)) [
  | yes same ↦ same
  | no other ↦ absurd (false≢true (sym live ∙ (w.retired h s e other).1))
]

after_token-IsClocked :
    (loc : Location) (g : ℕ) (room_id player_id token : String) (c : Client)
    → IsClocked c
    → IsClocked (after_token loc g room_id player_id token c)
unfolding after_token
after_token-IsClocked loc g room_id player_id token c h = ground arith

finish_attempt-IsClocked :
    (loc : Location) (token : String) (st : Stage) (a : Attempt) (c : Client)
    → IsClocked c
    → IsClocked (finish_attempt loc token st a c)
finish_attempt-IsClocked loc token importing a c h = h
finish_attempt-IsClocked loc token (awaiting_token p) a c h =
    after_token-IsClocked loc a.generation a.room_id p token c h

resume-IsClocked :
    (loc : Location) (g : ℕ) (token : String) (o : Option Attempt) (c : Client)
    → IsClocked c
    → IsClocked (resume loc g token o c)
resume-IsClocked loc g token none c h = h
resume-IsClocked loc g token (some a) c h = finish_attempt-IsClocked loc token a.stage a _ h

send_to-IsClocked :
    (o : Option ℕ) (frame : Outgoing) (c : Client) → IsClocked c → IsClocked (send_to o frame c)
send_to-IsClocked none frame c h = h
send_to-IsClocked (some k) frame c h = h

step-IsClocked : (loc : Location) (i : Input) (c : Client) → IsClocked c → IsClocked (step loc i c)
unfolding step connect imported reconnect send_action token_ready disconnect
step-IsClocked loc (connects room_id) c h = h
step-IsClocked loc disconnects c h = clear_timer_interval-IsClocked (clear_reconnect_timer c) h
step-IsClocked loc (sends kind payload) c h =
    send_to-IsClocked c.ws (record { kind = kind; payload = payload }) c h
step-IsClocked loc shifts c h = h
step-IsClocked loc clears_result c h = h
step-IsClocked loc (imports g player_id) c h = h
step-IsClocked loc (tokens g token) c h =
    resume-IsClocked loc g token (find (is_waiting g) c.attempts) c h
step-IsClocked loc (rejects g) c h = h
step-IsClocked loc (opens k) c h = ground arith
step-IsClocked loc (receives k msg_id frame) c h =
    ground (arith, on_message-IsClocked msg_id frame c h)
step-IsClocked loc (closes k) c h = ground arith
step-IsClocked loc (expires t) c h = ground arith
step-IsClocked loc (ticks t) c h = ground (arith, tick-IsClocked c h)

run_from-IsClocked :
    (loc : Location) (is : List Input) (c : Client) → IsClocked c → IsClocked (run loc is c)
unfolding run
run_from-IsClocked loc [] c h = h
run_from-IsClocked loc (i ∷ is) c h =
    run_from-IsClocked loc is (step loc i c) (step-IsClocked loc i c h)

-- After any inputs from the start, every socket that is connecting or open is the one that the
-- client holds in `ws`.
pub single_live :
    (loc : Location) (is : List Input) (h : ℕ) (s : Socket)
    → get_elem? (run loc is initial_client).sockets h ≡ some s
    → is_over s.ready_state ≡ false
    → (run loc is initial_client).ws ≡ some h
single_live loc is h s e live =
    live-ws (run loc is initial_client) h s e live
      (run-IsWired loc is initial_client initial-IsWired)

-- After any inputs from the start, no reconnect is pending, or one is: its id is the one that the
-- client will clear, its delay lies between one and ten seconds, and every socket is deaf or shut.
pub single_reconnect :
    (loc : Location) (is : List Input)
    → let c = run loc is initial_client in (c.timeouts ≡ []) ⊎ ((t d : ℕ) × IsAwaited (link c) t d)
single_reconnect loc is = (run-IsWired loc is initial_client initial-IsWired).timer

-- After any inputs from the start, the running intervals are exactly the one that the client
-- holds in `timerInterval`, or none if it holds none.
pub single_clock : (loc : Location) (is : List Input) → IsClocked (run loc is initial_client)
unfolding initial_client
single_clock loc is = run_from-IsClocked loc is initial_client refl
