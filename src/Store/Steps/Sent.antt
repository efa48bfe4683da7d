-- ===== src/Store/Steps/Sent.antt =====
-- What goes out on each socket.
use Prim.Native.Nat.{ℕ}
use Prim.Native.String.{String}
use mathlib.Core.Path.{◌≡◌, refl, sym, ap, subst, ◌∙◌}
use mathlib.Core.Logic.{inl, inr}
use mathlib.Core.Bool.{Bool, true, false}
use mathlib.Core.Option.{Option, none, some}
use mathlib.Core.List.{List, [], ◌∷◌, ◌++◌, append-nil, append_assoc}
use native.Mathlib.Omega.{arith}
use text.Mathlib.Text.{◌==◌}
use ai_with_mafia.Common.Tests.{if◌then◌else◌, Bool-cases, eqb}
use ai_with_mafia.Common.Lists.{get_elem?, modify, get_elem?-modify_at, get_elem?-append, any, find}
use ai_with_mafia.Store.State.{
  Client, Socket, ready, shut, Attempt, Stage, importing, awaiting_token, Outgoing,
}
use ai_with_mafia.Store.Events.{Frame}
use ai_with_mafia.Store.Connection.{
  Location, connect, imported, detach, drop_socket, open_socket, after_token, finish_attempt,
  resume, token_ready, is_waiting, on_close, reconnect, disconnect, send_action, send_to, send_on,
  is_ready,
}
use ai_with_mafia.Store.Steps.{
  Input, connects, disconnects, sends, shifts, clears_result, imports, tokens, rejects, opens,
  receives, closes, expires, ticks, is_opening, is_shut, socket_opens, socket_receives,
  socket_closes, step, run,
}
use ai_with_mafia.Store.Steps.Frames.{on_message-link, tick-link}

abbrev pub is_open : Option Socket → Bool
is_open none = false
is_open (some s) = elim s.ready_state [ ready ↦ true | _ ↦ false ]

-- Socket `h` is the one in use, and it is open.
abbrev pub is_usable : ℕ → Option ℕ → Option Socket → Bool
is_usable h none s = false
is_usable h (some k) s = if eqb k h then is_open s else false

-- What goes out on socket `h` with an input: what a component sends while the socket is the one in
-- use and open.
abbrev pub sent_now : ℕ → Input → Client → List Outgoing
sent_now h (sends kind payload) c =
    if is_usable h c.ws (get_elem? c.sockets h)
    then record { kind = kind; payload = payload } ∷ []
    else []
sent_now h _ c = []

-- Socket `h` of the client has sent `frames`.
pub record HasSent (h : ℕ) (frames : List Outgoing) (ss : List Socket) : Type 0 where
  pub socket : Socket
  pub here : get_elem? ss h ≡ some socket
  pub sent : socket.sent ≡ frames

modify-HasSent :
    (h k : ℕ) (f : Socket → Socket) (frames : List Outgoing) (ss : List Socket)
    → ((s : Socket) → (f s).sent ≡ s.sent)
    → HasSent h frames ss
    → HasSent h frames (modify ss k f)
modify-HasSent h k f frames ss keep r = elim (Bool-cases (eqb k h)) [
  | inl same ↦ record {
    socket = f r.socket;
    here = get_elem?-modify_at ss k h f r.here ∙ rw same refl;
    sent = keep r.socket ∙ r.sent;
  }
  | inr other ↦ record {
    socket = r.socket;
    here = get_elem?-modify_at ss k h f r.here ∙ rw other refl;
    sent = r.sent;
  }
]

drop_socket-HasSent :
    (h : ℕ) (o : Option ℕ) (frames : List Outgoing) (ss : List Socket)
    → HasSent h frames ss
    → HasSent h frames (drop_socket o ss)
unfolding drop_socket detach
drop_socket-HasSent h none frames ss r = r
drop_socket-HasSent h (some k) frames ss r = modify-HasSent h k detach frames ss (λ s. refl) r

append-HasSent :
    (h : ℕ) (new : Socket) (frames : List Outgoing) (ss : List Socket)
    → HasSent h frames ss
    → HasSent h frames (ss ++ new ∷ [])
append-HasSent h new frames ss r = record {
  socket = r.socket;
  here = get_elem?-append ss (new ∷ []) h r.here;
  sent = r.sent;
}

after_token-HasSent :
    (loc : Location) (h g : ℕ) (room_id p token : String) (frames : List Outgoing) (c : Client)
    → HasSent h frames c.sockets
    → HasSent h frames (after_token loc g room_id p token c).sockets
unfolding after_token open_socket
after_token-HasSent loc h g room_id p token frames c r = elim (Bool-cases (token == "")) [
  | inl empty ↦ rw empty r
  | inr full ↦ elim (Bool-cases (eqb g c.connect_generation)) [
    | inl latest ↦
        rw (full, latest)
          (append-HasSent h _ frames _ (drop_socket-HasSent h c.ws frames c.sockets r))
    | inr stale ↦ rw (full, stale) r
  ]
]

finish_attempt-HasSent :
    (loc : Location) (h : ℕ) (token : String) (st : Stage) (a : Attempt) (frames : List Outgoing)
    (c : Client)
    → HasSent h frames c.sockets
    → HasSent h frames (finish_attempt loc token st a c).sockets
finish_attempt-HasSent loc h token importing a frames c r = r
finish_attempt-HasSent loc h token (awaiting_token p) a frames c r =
    after_token-HasSent loc h a.generation a.room_id p token frames c r

resume-HasSent :
    (loc : Location) (h g : ℕ) (token : String) (o : Option Attempt) (frames : List Outgoing)
    (c : Client)
    → HasSent h frames c.sockets
    → HasSent h frames (resume loc g token o c).sockets
resume-HasSent loc h g token none frames c r = r
resume-HasSent loc h g token (some a) frames c r =
    finish_attempt-HasSent loc h token a.stage a frames _ r

socket_opens-HasSent :
    (h k : ℕ) (o : Option Socket) (frames : List Outgoing) (c : Client)
    → HasSent h frames c.sockets
    → HasSent h frames (socket_opens k o c).sockets
unfolding socket_opens
socket_opens-HasSent h k none frames c r = r
socket_opens-HasSent h k (some s) frames c r = elim (Bool-cases (is_opening s.ready_state)) [
  | inl can ↦ rw can (modify-HasSent h k _ frames c.sockets (λ b. refl) r)
  | inr cannot ↦ rw cannot r
]

socket_receives-HasSent :
    (h : ℕ) (m : String) (f : Frame) (o : Option Socket) (frames : List Outgoing) (c : Client)
    → HasSent h frames c.sockets
    → HasSent h frames (socket_receives m f o c).sockets
unfolding socket_receives
socket_receives-HasSent h m f none frames c r = r
socket_receives-HasSent h m f (some s) frames c r = elim (Bool-cases (is_ready s.ready_state)) [
  | inl can ↦ rw can (rw (ap (λ l. l.sockets) (on_message-link m f c)) r)
  | inr cannot ↦ rw cannot r
]

socket_closes-HasSent :
    (h k : ℕ) (o : Option Socket) (frames : List Outgoing) (c : Client)
    → HasSent h frames c.sockets
    → HasSent h frames (socket_closes k o c).sockets
unfolding socket_closes on_close
socket_closes-HasSent h k none frames c r = r
socket_closes-HasSent h k (some s) frames c r =
    let closed =
      modify-HasSent h k (λ b. record b { ready_state = shut }) frames c.sockets (λ b. refl) r in
    elim (Bool-cases (is_shut s.ready_state)) [
      | inl dead ↦ rw dead r
      | inr alive ↦ elim (Bool-cases s.has_onclose) [
        | inl heard ↦ rw (alive, heard) closed
        | inr deaf ↦ rw (alive, deaf) closed
      ]
    ]

is_open-is_ready : (s : Socket) → is_open (some s) ≡ is_ready s.ready_state
is_open-is_ready s = ground arith

abbrev now : Outgoing → Socket → List Outgoing
now frame s = if is_open (some s) then frame ∷ [] else []

send_on-sent : (frame : Outgoing) (s : Socket) → (send_on frame s).sent ≡ s.sent ++ now frame s
unfolding send_on
send_on-sent frame s = elim (Bool-cases (is_ready s.ready_state)) [
  | inl can ↦ rw (is_open-is_ready s, can) refl
  | inr cannot ↦ rw (is_open-is_ready s, cannot) (sym (append-nil s.sent))
]

send_to-HasSent :
    (h : ℕ) (o : Option ℕ) (frame : Outgoing) (frames : List Outgoing) (c : Client)
    → HasSent h frames c.sockets
    → HasSent h
        (frames ++ (if is_usable h o (get_elem? c.sockets h) then frame ∷ [] else []))
        (send_to o frame c).sockets
unfolding send_on
send_to-HasSent h none frame frames c r = rw (append-nil frames) r
send_to-HasSent h (some k) frame frames c r = elim (Bool-cases (eqb k h)) [
  | inl same ↦
      rw (same, r.here)
        (record {
          socket = send_on frame r.socket;
          here = get_elem?-modify_at c.sockets k h (send_on frame) r.here ∙ rw same refl;
          sent = send_on-sent frame r.socket ∙ ap (λ l. l ++ now frame r.socket) r.sent;
        })
  | inr other ↦
      rw (other, append-nil frames)
        (record {
          socket = r.socket;
          here = get_elem?-modify_at c.sockets k h (send_on frame) r.here ∙ rw other refl;
          sent = r.sent;
        })
]

step-HasSent :
    (loc : Location) (h : ℕ) (i : Input) (frames : List Outgoing) (c : Client)
    → HasSent h frames c.sockets
    → HasSent h (frames ++ sent_now h i c) (step loc i c).sockets
unfolding step connect imported token_ready disconnect send_action reconnect
step-HasSent loc h (sends kind payload) frames c r = send_to-HasSent h c.ws _ frames c r
step-HasSent loc h (connects room_id) frames c r = rw (append-nil frames) r
step-HasSent loc h disconnects frames c r =
    rw (append-nil frames) (drop_socket-HasSent h c.ws frames c.sockets r)
step-HasSent loc h shifts frames c r = rw (append-nil frames) r
step-HasSent loc h clears_result frames c r = rw (append-nil frames) r
step-HasSent loc h (imports g p) frames c r = rw (append-nil frames) r
step-HasSent loc h (tokens g token) frames c r =
    rw (append-nil frames)
      (resume-HasSent loc h g token (find (is_waiting g) c.attempts) frames c r)
step-HasSent loc h (rejects g) frames c r = rw (append-nil frames) r
step-HasSent loc h (opens k) frames c r =
    rw (append-nil frames) (socket_opens-HasSent h k _ frames c r)
step-HasSent loc h (receives k m f) frames c r =
    rw (append-nil frames) (socket_receives-HasSent h m f _ frames c r)
step-HasSent loc h (closes k) frames c r =
    rw (append-nil frames) (socket_closes-HasSent h k _ frames c r)
step-HasSent loc h (expires t) frames c r =
    rw (append-nil frames) (elim (Bool-cases (any (λ e. eqb e.0 t) c.timeouts)) [
      | inl fires ↦ rw fires r
      | inr idle ↦ rw idle r
    ])
step-HasSent loc h (ticks t) frames c r =
    rw (append-nil frames) (elim (Bool-cases (any (λ i. eqb i t) c.intervals)) [
      | inl fires ↦ rw fires (rw (ap (λ l. l.sockets) (tick-link c)) r)
      | inr idle ↦ rw idle r
    ])

-- Over a whole run.
unfoldable pub frames_on : Location → ℕ → List Input → Client → List Outgoing
unfolding step
frames_on loc h [] c = []
frames_on loc h (i ∷ is) c = sent_now h i c ++ frames_on loc h is (step loc i c)

-- Over any inputs, a socket sends exactly the frames that components send with `sendAction` while it
-- is the one in use and open: in that order, behind what it has sent before, and nothing else.
pub run-HasSent :
    (loc : Location) (h : ℕ) (is : List Input) (frames : List Outgoing) (c : Client)
    → HasSent h frames c.sockets
    → HasSent h (frames ++ frames_on loc h is c) (run loc is c).sockets
unfolding run frames_on
run-HasSent loc h [] frames c r = rw (append-nil frames) r
run-HasSent loc h (i ∷ is) frames c r =
    subst (λ l. HasSent h l (run loc is (step loc i c)).sockets)
      (append_assoc frames (sent_now h i c) (frames_on loc h is (step loc i c)))
      (run-HasSent loc h is (frames ++ sent_now h i c) (step loc i c)
        (step-HasSent loc h i frames c r))
