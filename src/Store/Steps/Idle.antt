-- ===== src/Store/Steps/Idle.antt =====
-- What `disconnect` guarantees when no body of `connect` waits.
use Prim.Native.Nat.{ℕ}
use Prim.Native.String.{String}
use mathlib.Core.Path.{◌≡◌, refl, ◌∙◌, ap}
use mathlib.Core.Logic.{inl, inr}
use mathlib.Core.Bool.{Bool, true, false}
use mathlib.Core.Option.{Option, none, some}
use mathlib.Core.List.{List, [], ◌∷◌}
use native.Mathlib.Omega.{arith}
use ai_with_mafia.Common.Tests.{Bool-cases, eqb}
use ai_with_mafia.Common.Lists.{any, get_elem?, All}
use ai_with_mafia.Store.State.{Client, Socket, initial_client}
use ai_with_mafia.Store.Timer.{tick}
use ai_with_mafia.Store.Connection.{
  Location, token_ready, is_ready, imported, disconnect, send_action,
}
use ai_with_mafia.Store.Events.{Frame}
use ai_with_mafia.Store.Steps.{
  Input, connects, disconnects, sends, shifts, clears_result, imports, tokens, rejects, opens,
  receives, closes, expires, ticks, socket_receives, socket_closes, step, run,
}
use ai_with_mafia.Store.Steps.Link.{link, is_over, IsWired}
use ai_with_mafia.Store.Steps.Sockets.{disconnect-IsWired, clear_reconnect_timer-nil}
use ai_with_mafia.Store.Steps.Frames.{on_message-link, on_message-plan}
use ai_with_mafia.Store.Steps.Wiring.{step-IsWired}
use ai_with_mafia.Store.Steps.Safety.{initial-IsWired, run-IsWired}

-- No socket in use, no reconnect pending, no attempt waiting.
pub record IsIdle (c : Client) : Type 0 where
  pub no_socket : c.ws ≡ none
  pub no_reconnect : c.timeouts ≡ []
  pub no_attempt : c.attempts ≡ []

-- A socket that a client without a socket in use still hears about is none.
retired-has_onclose :
    (c : Client) (h : ℕ) (s : Socket)
    → get_elem? c.sockets h ≡ some s
    → c.ws ≡ none
    → IsWired (link c)
    → s.has_onclose ≡ false
retired-has_onclose c h s e gone w = (w.retired h s e (λ k. cc)).0

socket_closes-IsIdle :
    (h : ℕ) (o : Option Socket) (c : Client)
    → get_elem? c.sockets h ≡ o
    → IsWired (link c)
    → IsIdle c
    → IsIdle (socket_closes h o c)
unfolding socket_closes
socket_closes-IsIdle h none c e w d = d
socket_closes-IsIdle h (some s) c e w d =
    rw (retired-has_onclose c h s e d.no_socket w)
      (ground (arith, d.no_socket, d.no_reconnect, d.no_attempt))

socket_receives-IsIdle :
    (msg_id : String) (frame : Frame) (o : Option Socket) (c : Client)
    → IsIdle c
    → IsIdle (socket_receives msg_id frame o c)
unfolding socket_receives
socket_receives-IsIdle msg_id frame none c d = d
socket_receives-IsIdle msg_id frame (some s) c d = elim (Bool-cases (is_ready s.ready_state)) [
  | inl can ↦ rw can (record {
    no_socket = ap (λ l. l.ws) (on_message-link msg_id frame c) ∙ d.no_socket;
    no_reconnect = ap (λ l. l.timeouts) (on_message-link msg_id frame c) ∙ d.no_reconnect;
    no_attempt = ap (λ p. p.0) (on_message-plan msg_id frame c) ∙ d.no_attempt;
  })
  | inr cannot ↦ rw cannot d
]

pub disconnect-IsIdle : (c : Client) → c.attempts ≡ [] → IsWired (link c) → IsIdle (disconnect c)
unfolding disconnect
disconnect-IsIdle c e w = record {
  no_socket = refl;
  no_reconnect = clear_reconnect_timer-nil c w;
  no_attempt = e;
}

tick-IsIdle : (c : Client) → IsIdle c → IsIdle (tick c)
unfolding tick
tick-IsIdle c d = ground (arith, d)

abbrev pub is_connects : Input → Bool
is_connects (connects room_id) = true
is_connects _ = false

pub step-IsIdle :
    (loc : Location) (i : Input) (c : Client)
    → is_connects i ≡ false
    → IsWired (link c)
    → IsIdle c
    → IsIdle (step loc i c)
unfolding step imported send_action token_ready disconnect
step-IsIdle loc (connects room_id) c h w d = cc
step-IsIdle loc disconnects c h w d = record {
  no_socket = refl;
  no_reconnect = clear_reconnect_timer-nil c w;
  no_attempt = d.no_attempt;
}
step-IsIdle loc (sends kind payload) c h w d = ground (arith, d.no_socket)
step-IsIdle loc shifts c h w d = ground (arith, d)
step-IsIdle loc clears_result c h w d = ground (arith, d)
step-IsIdle loc (imports g player_id) c h w d = ground (arith, d.no_attempt)
step-IsIdle loc (tokens g token) c h w d = ground (arith, d.no_attempt)
step-IsIdle loc (rejects g) c h w d = ground (arith, d.no_attempt)
step-IsIdle loc (opens k) c h w d = ground arith
step-IsIdle loc (receives k msg_id frame) c h w d =
    socket_receives-IsIdle msg_id frame (get_elem? c.sockets k) c d
step-IsIdle loc (closes k) c h w d = socket_closes-IsIdle k _ c refl w d
step-IsIdle loc (expires t) c h w d = ground (arith, d.no_reconnect)
step-IsIdle loc (ticks t) c h w d = elim (Bool-cases (any (λ i. eqb i t) c.intervals)) [
  | inl fires ↦ rw fires (tick-IsIdle c d)
  | inr quiet ↦ rw quiet d
]

run-IsIdle :
    (loc : Location) (is : List Input) (c : Client)
    → All (λ i. is_connects i ≡ false) is
    → IsWired (link c)
    → IsIdle c
    → IsIdle (run loc is c) × IsWired (link (run loc is c))
unfolding run
run-IsIdle loc [] c h w d = (d, w)
run-IsIdle loc (i ∷ is) c h w d =
    run-IsIdle loc is (step loc i c) h.1 (step-IsWired loc i c w) (step-IsIdle loc i c h.0 w d)

-- After any run from the start with no attempt waiting, `disconnect` is final: whatever happens
-- next, as long as nobody calls `connect`, no reconnect is pending, no attempt waits, and every
-- socket is closing or closed.
pub disconnect_final :
    (loc : Location) (before after : List Input)
    → (run loc before initial_client).attempts ≡ []
    → All (λ i. is_connects i ≡ false) after
    → let c = run loc after (disconnect (run loc before initial_client)) in
      IsIdle c
      × ((h : ℕ) (s : Socket) → get_elem? c.sockets h ≡ some s → is_over s.ready_state ≡ true)
disconnect_final loc before after e h =
    let wired = disconnect-IsWired _ (run-IsWired loc before initial_client initial-IsWired) in
    let (idle, still) =
      run-IsIdle loc after _ h wired
        (disconnect-IsIdle _ e (run-IsWired loc before initial_client initial-IsWired)) in
    (idle, λ k s found. (still.retired k s found (λ at. cc (idle.no_socket))).1)
