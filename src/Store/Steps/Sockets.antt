-- ===== src/Store/Steps/Sockets.antt =====
-- How `connect`, `disconnect` and `sendAction` treat the sockets.
use Prim.Native.Nat.{ℕ}
use Prim.Native.String.{String}
use mathlib.Core.Path.{◌≡◌, refl, ap, sym, ◌∙◌}
use mathlib.Core.Logic.{inl, inr}
use mathlib.Core.Bool.{true}
use mathlib.Core.Option.{Option, none, some}
use mathlib.Core.List.{List, []}
use native.Mathlib.Omega.{arith}
use text.Mathlib.Text.{◌==◌}
use ai_with_mafia.Common.Tests.{Bool-cases, Option-cases, eqb}
use ai_with_mafia.Common.Lists.{
  length, get_elem?, modify, length-modify, get_elem?-modify, get_elem?-concat, find,
}
use ai_with_mafia.Store.State.{
  Client, Socket, ReadyState, opening, ready, closing, shut, Attempt, Stage, importing,
  awaiting_token, Outgoing,
}
use ai_with_mafia.Store.Timer.{clear_reconnect_timer}
use ai_with_mafia.Store.Connection.{
  Location, token_ready, after_token, open_socket, new_socket, disconnect, send_on, detach,
  drop_socket, close_state, is_ready, is_waiting, finish_attempt, send_to,
}
use ai_with_mafia.Store.Steps.Link.{link, is_over, IsRetired, IsDeaf, IsWired}

close_state-over : (r : ReadyState) → is_over (close_state r) ≡ true
close_state-over opening = refl
close_state-over ready = refl
close_state-over closing = refl
close_state-over shut = refl

pub length-drop_socket : (o : Option ℕ) (ss : List Socket) → length (drop_socket o ss) ≡ length ss
unfolding drop_socket
length-drop_socket none ss = refl
length-drop_socket (some h) ss = length-modify ss h detach

-- What a client gives up when it drops its socket: everything.
drop_socket-IsRetired :
    (c : Client)
    → IsWired (link c)
    → (j : ℕ) (s : Socket) → get_elem? (drop_socket c.ws c.sockets) j ≡ some s
    → IsRetired s
unfolding drop_socket
drop_socket-IsRetired c w j s e = elim (Option-cases c.ws) [
  | inl gone ↦ w.retired j s (rw gone at e) (λ k. cc)
  | inr (h, is) ↦ elim (get_elem?-modify c.sockets h j detach (rw is at e)) [
    | inl (same, (a, _, made)) ↦ rw made (refl, close_state-over a.ready_state)
    | inr (other, old) ↦ w.retired j s old (λ k. other (ground arith))
  ]
]

pub clear_reconnect_timer-nil :
    (c : Client) → IsWired (link c) → (clear_reconnect_timer c).timeouts ≡ []
unfolding clear_reconnect_timer
clear_reconnect_timer-nil c w = elim w.timer [
  | inl e ↦ ground arith
  | inr (t, d, a) ↦ ground (arith, a.alone, a.known)
]

open_socket-IsWired :
    (loc : Location) (room_id player_id token : String) (c : Client)
    → IsWired (link c)
    → IsWired (link (open_socket loc room_id player_id token c))
unfolding open_socket
open_socket-IsWired loc room_id player_id token c w = record {
  retired = λ j s e n. elim (get_elem?-concat (drop_socket c.ws c.sockets) (new_socket _) j e) [
    | inl (last, _) ↦ absurd (n (ap some (sym (last ∙ length-drop_socket c.ws c.sockets))))
    | inr old ↦ drop_socket-IsRetired c w j s old
  ];
  timer = inl (clear_reconnect_timer-nil c w);
  delay = w.delay;
}

pub disconnect-IsWired : (c : Client) → IsWired (link c) → IsWired (link (disconnect c))
unfolding disconnect
disconnect-IsWired c w = record {
  retired = λ j s e n. drop_socket-IsRetired c w j s e;
  timer = inl (clear_reconnect_timer-nil c w);
  delay = w.delay;
}

after_token-IsWired :
    (loc : Location) (g : ℕ) (room_id player_id token : String) (c : Client)
    → IsWired (link c)
    → IsWired (link (after_token loc g room_id player_id token c))
unfolding after_token
after_token-IsWired loc g room_id player_id token c w = elim (Bool-cases (token == "")) [
  | inl empty ↦ rw empty w
  | inr full ↦ elim (Bool-cases (eqb g c.connect_generation)) [
    | inl latest ↦ rw (full, latest) (open_socket-IsWired loc room_id player_id token c w)
    | inr stale ↦ rw (full, stale) w
  ]
]

finish_attempt-IsWired :
    (loc : Location) (token : String) (st : Stage) (a : Attempt) (c : Client)
    → IsWired (link c)
    → IsWired (link (finish_attempt loc token st a c))
finish_attempt-IsWired loc token importing a c w = w
finish_attempt-IsWired loc token (awaiting_token p) a c w =
    after_token-IsWired loc a.generation a.room_id p token c w

pub token_ready-IsWired :
    (loc : Location) (g : ℕ) (token : String) (c : Client)
    → IsWired (link c)
    → IsWired (link (token_ready loc g token c))
unfolding token_ready
token_ready-IsWired loc g token c w = elim (Option-cases (find (is_waiting g) c.attempts)) [
  | inl missing ↦ rw (missing, token_ready) w
  | inr (a, found) ↦ rw (found, token_ready) (finish_attempt-IsWired loc token a.stage a _ w)
]

-- A change of one socket that neither revives it nor attaches its handler again.
abbrev pub IsTame : (Socket → Socket) → Socket → Type 0
IsTame f s =
    ((f s).has_onclose ≡ s.has_onclose)
    × (is_over s.ready_state ≡ true → is_over (f s).ready_state ≡ true)
    × (s.ready_state ≡ shut → (f s).ready_state ≡ shut)

IsTame-IsDeaf : (f : Socket → Socket) (s : Socket) → IsTame f s → IsDeaf s → IsDeaf (f s)
IsTame-IsDeaf f s tame (inl off) = inl (tame.0 ∙ off)
IsTame-IsDeaf f s tame (inr dead) = inr (tame.2 dead)

pub modify-IsWired :
    (f : Socket → Socket) (c : Client) (h : ℕ)
    → ((s : Socket) → get_elem? c.sockets h ≡ some s → IsTame f s)
    → IsWired (link c)
    → IsWired (link (record c { sockets = modify c.sockets h f }))
modify-IsWired f c h tame w = record {
  retired = λ j s e n. elim (get_elem?-modify c.sockets h j f e) [
    | inl (same, (a, old, made)) ↦
        let (off, over) = w.retired j a old n in
        let (keeps, ends, _) = tame a (rw same old) in rw made (keeps ∙ off, ends over)
    | inr (_, old) ↦ w.retired j s old n
  ];
  timer = elim w.timer [
    | inl e ↦ inl e
    | inr (t, d, a) ↦ inr (
      t,
      d,
      record {
        alone = a.alone;
        known = a.known;
        bounded = a.bounded;
        closed = λ j s e. elim (get_elem?-modify c.sockets h j f e) [
          | inl (same, (b, old, made)) ↦
              rw made (IsTame-IsDeaf f b (tame b (rw same old)) (a.closed j b old))
          | inr (_, old) ↦ a.closed j s old
        ];
      },
    )
  ];
  delay = w.delay;
}

send_on-IsTame : (frame : Outgoing) (s : Socket) → IsTame (send_on frame) s
unfolding send_on
send_on-IsTame frame s = elim (Bool-cases (is_ready s.ready_state)) [
  | inl can ↦ rw can (refl, λ over. over, λ dead. dead)
  | inr cannot ↦ rw cannot (refl, λ over. over, λ dead. dead)
]

pub send_to-IsWired :
    (o : Option ℕ) (frame : Outgoing) (c : Client)
    → IsWired (link c)
    → IsWired (link (send_to o frame c))
send_to-IsWired none frame c w = w
send_to-IsWired (some h) frame c w =
    modify-IsWired (send_on frame) c h (λ s e. send_on-IsTame frame s) w
