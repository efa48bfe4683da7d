-- ===== src/Store/Steps/Room/Inputs.antt =====
-- What the inputs of a connected client do to its room.
use Prim.Native.Nat.{ℕ}
use Prim.Native.String.{String}
use mathlib.Core.Path.{◌≡◌, refl, ap, ◌∙◌}
use mathlib.Core.Logic.{inl, inr}
use mathlib.Core.Bool.{false}
use mathlib.Core.Option.{Option, none, some}
use mathlib.Core.List.{List}
use ai_with_mafia.Common.Tests.{Bool-cases, eqb}
use ai_with_mafia.Common.Lists.{modify, get_elem?-modify, any, All-concat, All-map_self}
use ai_with_mafia.Store.State.{Client, Socket, ready, shut, Outgoing}
use ai_with_mafia.Store.Timer.{tick}
use ai_with_mafia.Store.Overlay.{shift_overlay}
use ai_with_mafia.Store.Events.{Frame}
use ai_with_mafia.Store.Events.Own.{on_message-player_id}
use ai_with_mafia.Store.Connection.{
  Location, connect, imported, read_player, on_close, reconnect, send_action, send_to, send_on,
  is_ready,
}
use ai_with_mafia.Store.Steps.{
  Input, connects, disconnects, sends, shifts, clears_result, imports, tokens, rejects, opens,
  receives, closes, expires, ticks, set_ready_state, is_opening, is_shut, socket_opens,
  socket_receives, socket_closes, step,
}
use ai_with_mafia.Store.Steps.Frames.{on_message-link, on_message-plan}
use ai_with_mafia.Store.Steps.Room.{InRoom, IsUsed, keep-InRoom, IsFor, IsBy, is_page_call}
use ai_with_mafia.Store.Steps.Room.Attempts.{
  token_ready-InRoom, drop_attempts-InRoom, read_player-IsFor,
}

module _ (loc : Location) (id p : String) where
  -- A change of one socket that keeps its address.
  modify-IsUsed :
      (ws : Option ℕ) (ss : List Socket) (k : ℕ) (f : Socket → Socket)
      → ((s : Socket) → (f s).url ≡ s.url)
      → IsUsed loc id ws ss
      → IsUsed loc id ws (modify ss k f)
  modify-IsUsed ws ss k f keep u h s e at = elim (get_elem?-modify ss k h f e) [
    | inl (same, (a, old, made)) ↦
        let (token, is) = u h a old at in (token, ap (λ b. b.url) made ∙ keep a ∙ is)
    | inr (other, old) ↦ u h s old at
  ]

  modify-InRoom :
      (k : ℕ) (f : Socket → Socket) (c : Client)
      → ((s : Socket) → (f s).url ≡ s.url)
      → InRoom loc id p c
      → InRoom loc id p (record c { sockets = modify c.sockets k f })
  modify-InRoom k f c keep r = record {
    current = r.current;
    asked = r.asked;
    used = modify-IsUsed c.ws c.sockets k f keep r.used;
    own = r.own;
  }

  send_on-url : (f : Outgoing) (s : Socket) → (send_on f s).url ≡ s.url
  unfolding send_on
  send_on-url f s = elim (Bool-cases (is_ready s.ready_state)) [
    | inl can ↦ rw can refl
    | inr cannot ↦ rw cannot refl
  ]

  send_to-InRoom :
      (o : Option ℕ) (f : Outgoing) (c : Client)
      → InRoom loc id p c
      → InRoom loc id p (send_to o f c)
  send_to-InRoom none f c r = r
  send_to-InRoom (some k) f c r = modify-InRoom k (send_on f) c (send_on-url f) r

  socket_opens-InRoom :
      (k : ℕ) (o : Option Socket) (c : Client)
      → InRoom loc id p c
      → InRoom loc id p (socket_opens k o c)
  unfolding socket_opens
  socket_opens-InRoom k none c r = r
  socket_opens-InRoom k (some s) c r = elim (Bool-cases (is_opening s.ready_state)) [
    | inl can ↦ rw can (
        keep-InRoom loc id p (set_ready_state k ready c) _ refl refl refl refl refl
          (modify-InRoom k _ c (λ b. refl) r))
    | inr cannot ↦ rw cannot r
  ]

  socket_receives-InRoom :
      (m : String) (f : Frame) (o : Option Socket) (c : Client)
      → InRoom loc id p c
      → InRoom loc id p (socket_receives m f o c)
  unfolding socket_receives
  socket_receives-InRoom m f none c r = r
  socket_receives-InRoom m f (some s) c r = elim (Bool-cases (is_ready s.ready_state)) [
    | inl can ↦ rw can (
        keep-InRoom loc id p c _ (ap (λ p. p.2) (on_message-plan m f c))
          (ap (λ p. p.0) (on_message-plan m f c)) (ap (λ l. l.ws) (on_message-link m f c))
          (ap (λ l. l.sockets) (on_message-link m f c)) (on_message-player_id m f c) r)
    | inr cannot ↦ rw cannot r
  ]

  socket_closes-InRoom :
      (k : ℕ) (o : Option Socket) (c : Client)
      → InRoom loc id p c
      → InRoom loc id p (socket_closes k o c)
  unfolding socket_closes on_close
  socket_closes-InRoom k none c r = r
  socket_closes-InRoom k (some s) c r =
      let closed = modify-InRoom k (λ b. record b { ready_state = shut }) c (λ b. refl) r in
      elim (Bool-cases (is_shut s.ready_state)) [
        | inl dead ↦ rw dead r
        | inr alive ↦ elim (Bool-cases s.has_onclose) [
          | inl heard ↦
              rw (alive, heard)
                (keep-InRoom loc id p (set_ready_state k shut c) _ refl refl refl refl refl closed)
          | inr deaf ↦ rw (alive, deaf) closed
        ]
      ]

  reconnect-InRoom : (c : Client) → InRoom loc id p c → InRoom loc id p (reconnect c)
  unfolding reconnect connect
  reconnect-InRoom c r = record {
    current = r.current;
    asked = All-concat (IsFor loc id p) c.attempts r.asked (r.current, tt);
    used = r.used;
    own = r.own;
  }

  tick-InRoom : (c : Client) → InRoom loc id p c → InRoom loc id p (tick c)
  unfolding tick
  tick-InRoom c r = elim (Bool-cases (eqb c.store.timer_remaining_sec 0)) [
    | inl over ↦ rw over (keep-InRoom loc id p c _ refl refl refl refl refl r)
    | inr more ↦ rw more (keep-InRoom loc id p c _ refl refl refl refl refl r)
  ]

  -- What the browser, the server and the components in the page do keeps the client in its room.
  pub step-InRoom :
      (i : Input) (c : Client)
      → is_page_call i ≡ false
      → IsBy p i
      → InRoom loc id p c
      → InRoom loc id p (step loc i c)
  unfolding step imported send_action shift_overlay
  step-InRoom (connects room_id) c h by r = cc
  step-InRoom disconnects c h by r = cc
  step-InRoom (sends kind payload) c h by r = send_to-InRoom c.ws _ c r
  step-InRoom shifts c h by r = keep-InRoom loc id p c _ refl refl refl refl refl r
  step-InRoom clears_result c h by r = keep-InRoom loc id p c _ refl refl refl refl refl r
  step-InRoom (imports g q) c h by r = record {
    current = r.current;
    asked =
        All-map_self (IsFor loc id p) (read_player g q) c.attempts
          (λ a. read_player-IsFor loc id p g q a by) r.asked;
    used = r.used;
    own = r.own;
  }
  step-InRoom (tokens g token) c h by r = token_ready-InRoom loc id p g token c r
  step-InRoom (rejects g) c h by r = drop_attempts-InRoom loc id p _ c r
  step-InRoom (opens k) c h by r = socket_opens-InRoom k _ c r
  step-InRoom (receives k m f) c h by r = socket_receives-InRoom m f _ c r
  step-InRoom (closes k) c h by r = socket_closes-InRoom k _ c r
  step-InRoom (expires t) c h by r = elim (Bool-cases (any (λ e. eqb e.0 t) c.timeouts)) [
    | inl fires ↦
        rw fires (reconnect-InRoom _ (keep-InRoom loc id p c _ refl refl refl refl refl r))
    | inr idle ↦ rw idle r
  ]
  step-InRoom (ticks t) c h by r = elim (Bool-cases (any (λ i. eqb i t) c.intervals)) [
    | inl fires ↦ rw fires (tick-InRoom c r)
    | inr idle ↦ rw idle r
  ]
