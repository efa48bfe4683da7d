-- ===== src/Store/Steps/Wiring.antt =====
-- Every input keeps the wiring of the connection.
use Prim.Native.Nat.{ℕ, ◌≤◌}
use Prim.Native.String.{String}
use mathlib.Core.Path.{◌≡◌, refl, ap, sym, ◌∙◌}
use mathlib.Core.Logic.{◌≢◌, inl, inr}
use mathlib.Core.Bool.{true}
use mathlib.Core.Option.{Option, none, some}
use native.Mathlib.Decide.{ℕ_discrete}
use mathlib.Core.List.{[], ◌∷◌}
use native.Mathlib.Omega.{arith}
use ai_with_mafia.Common.Tests.{Bool-cases, Option-cases, eqb, eq_of_some}
use ai_with_mafia.Common.Lists.{get_elem?, get_elem?-modify, any}
use ai_with_mafia.Store.State.{Client, Socket, ready, shut}
use ai_with_mafia.Store.Timer.{clear_timeout}
use ai_with_mafia.Store.Events.{Frame}
use ai_with_mafia.Store.Connection.{
  Location, connect, imported, on_close, reconnect, send_action, is_ready,
}
use ai_with_mafia.Store.Steps.{
  Input, connects, disconnects, sends, shifts, clears_result, imports, tokens, rejects, opens,
  receives, closes, expires, ticks, set_ready_state, is_opening, is_shut, socket_opens,
  socket_receives, socket_closes, step,
}
use ai_with_mafia.Store.Steps.Frames.{on_message-link, tick-link}
use ai_with_mafia.Store.Steps.Sockets.{
  disconnect-IsWired, token_ready-IsWired, modify-IsWired, send_to-IsWired,
}
use ai_with_mafia.Store.Steps.Link.{Link, link, IsWired}

-- A socket whose close is heard is the one in use.
heard-ws :
    (c : Client) (h : ℕ) (s : Socket)
    → get_elem? c.sockets h ≡ some s
    → s.has_onclose ≡ true
    → IsWired (link c)
    → c.ws ≡ some h
heard-ws c h s e heard w = elim (Option-cases c.ws) [
  | inl gone ↦ absurd (heard_absurd (λ k. cc))
  | inr (k, is) ↦ elim (ℕ_discrete k h) [
    | yes same ↦ is ∙ ap some same
    | no other ↦ absurd (heard_absurd (λ i. other (eq_of_some (sym is ∙ i))))
  ]
]
  where
    heard_absurd : c.ws ≢ some h → ⊥
    heard_absurd n = cc ((w.retired h s e n).0)

heard-nil :
    (c : Client) (h : ℕ) (s : Socket)
    → get_elem? c.sockets h ≡ some s
    → s.ready_state ≢ shut
    → s.has_onclose ≡ true
    → IsWired (link c)
    → c.timeouts ≡ []
heard-nil c h s e alive heard w = elim w.timer [
  | inl nil ↦ nil
  | inr (t, d, a) ↦ elim (a.closed h s e) [ inl off ↦ cc | inr dead ↦ absurd (alive dead) ]
]

-- Its close is heard from the socket in use alone, so nothing else is pending then.
on_close-IsWired :
    (c : Client) (h : ℕ) (s : Socket)
    → get_elem? c.sockets h ≡ some s
    → s.ready_state ≢ shut
    → s.has_onclose ≡ true
    → IsWired (link c)
    → IsWired (link (on_close (set_ready_state h shut c)))
unfolding on_close
on_close-IsWired c h s e alive heard w = record {
  retired = (modify-IsWired _ c h (λ b _. (refl, λ _. refl, λ _. refl)) w).retired;
  timer = inr (
    c.next_timer,
    c.reconnect_delay,
    record {
      alone = ap (◌∷◌ (c.next_timer, c.reconnect_delay)) (heard-nil c h s e alive heard w);
      known = refl;
      bounded = w.delay;
      closed = λ j b found. elim (get_elem?-modify c.sockets h j _ found) [
        | inl (_, (_, _, made)) ↦ inr (ap (λ s'. s'.ready_state) made)
        | inr (other, old) ↦
            inl (w.retired j b old (λ k. other (eq_of_some (sym (heard-ws c h s e heard w) ∙ k)))).0
      ];
    },
  );
  delay = w.delay;
}

redelay-IsWired :
    (l : Link) (d : ℕ)
    → 1000 ≤ d
    → d ≤ 10000
    → IsWired l
    → IsWired (record l { reconnect_delay = d })
redelay-IsWired l d low high w = record {
  retired = w.retired;
  timer = elim w.timer [
    | inl nil ↦ inl nil
    | inr (t, e, a) ↦
        inr (
          t,
          e,
          record { alone = a.alone; known = a.known; bounded = a.bounded; closed = a.closed },
        )
  ];
  delay = (low, high);
}

reconnect-IsWired : (c : Client) → IsWired (link c) → IsWired (link (reconnect c))
unfolding reconnect
reconnect-IsWired c w = redelay-IsWired (link c) _ (omega (arith, w.delay)) (omega arith) w

socket_opens-IsWired :
    (h : ℕ) (o : Option Socket) (c : Client)
    → get_elem? c.sockets h ≡ o
    → IsWired (link c)
    → IsWired (link (socket_opens h o c))
unfolding socket_opens
socket_opens-IsWired h none c e w = w
socket_opens-IsWired h (some s) c e w = elim (Bool-cases (is_opening s.ready_state)) [
  | inl can ↦
      let moved =
        modify-IsWired (λ b. record b { ready_state = ready }) c h
          (λ b found. (refl, ground (arith, e, found), ground (arith, e, found))) w in
      rw can (redelay-IsWired _ 1000 (omega arith) (omega arith) moved)
  | inr cannot ↦ rw cannot w
]

socket_receives-IsWired :
    (msg_id : String) (frame : Frame) (o : Option Socket) (c : Client)
    → IsWired (link c)
    → IsWired (link (socket_receives msg_id frame o c))
unfolding socket_receives
socket_receives-IsWired msg_id frame none c w = w
socket_receives-IsWired msg_id frame (some s) c w = elim (Bool-cases (is_ready s.ready_state)) [
  | inl can ↦ rw (can, on_message-link) w
  | inr cannot ↦ rw cannot w
]

socket_closes-IsWired :
    (h : ℕ) (o : Option Socket) (c : Client)
    → get_elem? c.sockets h ≡ o
    → IsWired (link c)
    → IsWired (link (socket_closes h o c))
unfolding socket_closes
socket_closes-IsWired h none c e w = w
socket_closes-IsWired h (some s) c e w = elim (Bool-cases (is_shut s.ready_state)) [
  | inl dead ↦ rw dead w
  | inr alive ↦ elim (Bool-cases s.has_onclose) [
    | inl heard ↦ rw (alive, heard) (on_close-IsWired c h s e (λ k. ground arith) heard w)
    | inr deaf ↦ rw (alive, deaf) (modify-IsWired _ c h (λ b _. (refl, λ _. refl, λ _. refl)) w)
  ]
]

clear_timeout-nil :
    (t : ℕ) (c : Client)
    → IsWired (link c)
    → any (λ e. eqb e.0 t) c.timeouts ≡ true
    → clear_timeout t c.timeouts ≡ []
unfolding any clear_timeout
clear_timeout-nil t c w h = elim w.timer [
  | inl nil ↦ rw nil
  | inr (t', d, a) ↦ ground (arith, a.alone)
]

expires-IsWired :
    (t : ℕ) (c : Client)
    → any (λ e. eqb e.0 t) c.timeouts ≡ true
    → IsWired (link c)
    → IsWired (link (record c { timeouts = clear_timeout t c.timeouts }))
expires-IsWired t c h w = record {
  retired = w.retired;
  timer = inl (clear_timeout-nil t c w h);
  delay = w.delay;
}

pub step-IsWired :
    (loc : Location) (i : Input) (c : Client) → IsWired (link c) → IsWired (link (step loc i c))
unfolding step connect imported send_action
step-IsWired loc (connects room_id) c w = w
step-IsWired loc disconnects c w = disconnect-IsWired c w
step-IsWired loc (sends kind payload) c w =
    send_to-IsWired c.ws (record { kind = kind; payload = payload }) c w
step-IsWired loc shifts c w = w
step-IsWired loc clears_result c w = w
step-IsWired loc (imports g player_id) c w = w
step-IsWired loc (tokens g token) c w = token_ready-IsWired loc g token c w
step-IsWired loc (rejects g) c w = w
step-IsWired loc (opens h) c w = socket_opens-IsWired h _ c refl w
step-IsWired loc (receives h msg_id frame) c w = socket_receives-IsWired msg_id frame _ c w
step-IsWired loc (closes h) c w = socket_closes-IsWired h _ c refl w
step-IsWired loc (expires t) c w = elim (Bool-cases (any (λ e. eqb e.0 t) c.timeouts)) [
  | inl fires ↦ rw fires (reconnect-IsWired _ (expires-IsWired t c fires w))
  | inr idle ↦ rw idle w
]
step-IsWired loc (ticks t) c w = elim (Bool-cases (any (λ i. eqb i t) c.intervals)) [
  | inl fires ↦ rw (fires, tick-link) w
  | inr idle ↦ rw idle w
]
