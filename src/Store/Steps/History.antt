-- ===== src/Store/Steps/History.antt =====
-- What a run keeps: the chat log only grows, and a result stays until it is cleared.
use Prim.Native.String.{String}
use mathlib.Core.Path.{◌≡◌, refl, sym, ◌∙◌, ap}
use mathlib.Core.Logic.{inl, inr}
use mathlib.Core.Bool.{Bool, false}
use mathlib.Core.Option.{Option, none, some}
use mathlib.Core.List.{List, [], ◌∷◌, ◌++◌, append-nil, append_assoc}
use native.Mathlib.Omega.{arith}
use text.Mathlib.Text.{◌==◌}
use ai_with_mafia.Common.Tests.{if◌then◌else◌, Bool-cases}
use ai_with_mafia.Common.Lists.{get_elem?, All}
use ai_with_mafia.Types.{
  ChatMessage, GameOverResult, initial_state, role_assigned, phase_change, chat, mafia_chat, vote,
  kill, night_action, game_over, player_replaced, player_joined, player_left,
}
use ai_with_mafia.Store.State.{Client, GameStore, Socket, ready}
use ai_with_mafia.Store.Connection.{Location, is_ready}
use ai_with_mafia.Store.Events.Kept.{on_phase_change-shown, on_vote-shown}
use ai_with_mafia.Store.Events.{
  on_message, on_night_action, on_player_joined, Frame, unparsed, unknown_type, event,
}
use ai_with_mafia.Store.Steps.{
  Input, clears_result, receives, clear_result, socket_receives, step, run,
}
use ai_with_mafia.Store.Steps.Kept.{is_clears, step-kept}

-- The messages `new` have been added behind those of `c`.
abbrev pub Extends : List ChatMessage → List ChatMessage → Type 0
Extends old now = (new : List ChatMessage) × (now ≡ old ++ new)

Extends-refl : (old : List ChatMessage) → Extends old old
Extends-refl old = ([], sym (append-nil old))

Extends-trans : (a b c : List ChatMessage) → Extends a b → Extends b c → Extends a c
Extends-trans a b c (m, e) (n, f) = (m ++ n, f ∙ ap (λ l. l ++ n) e ∙ append_assoc a m n)

Extends-of_eq : (old : List ChatMessage) {now : List ChatMessage} → now ≡ old → Extends old now
Extends-of_eq old e = ([], e ∙ sym (append-nil old))

abbrev pub log : Client → List ChatMessage
log c = c.store.messages

on_night_action-Extends :
    (m kind id : String) (b : Bool) (s : GameStore)
    → Extends s.messages (on_night_action m kind id b s).messages
unfolding on_night_action
on_night_action-Extends m kind id b s = elim (Bool-cases (kind == "investigation_result")) [
  | inl shown ↦ rw shown (_, refl)
  | inr other ↦ rw other (Extends-refl s.messages)
]

on_player_joined-Extends :
    (m id name : String) (s : GameStore)
    → Extends s.messages (on_player_joined m id name s).messages
unfolding on_player_joined
on_player_joined-Extends m id name s = elim (Bool-cases (id == s.player_id)) [
  | inl mine ↦ rw mine (Extends-refl s.messages)
  | inr other ↦ rw other (_, refl)
]

on_message-Extends :
    (m : String) (f : Frame) (c : Client) → Extends (log c) (log (on_message m f c))
unfolding on_message
on_message-Extends m unparsed c = Extends-refl (log c)
on_message-Extends m unknown_type c = Extends-refl (log c)
on_message-Extends m (event (initial_state room none role)) c = Extends-refl (log c)
on_message-Extends m (event (initial_state room (some g) role)) c = Extends-refl (log c)
on_message-Extends m (event (role_assigned role)) c = Extends-refl (log c)
on_message-Extends m (event (phase_change p r d a)) c =
    Extends-of_eq (log c) (ap (λ t. t.1) (on_phase_change-shown p r d a c))
on_message-Extends m (event (chat sender name text mafia_only)) c = (_, refl)
on_message-Extends m (event (mafia_chat sender name text)) c = (_, refl)
on_message-Extends m (event (vote voter target result votes)) c =
    Extends-of_eq (log c) (ap (λ t. t.1) (on_vote-shown voter target votes c.store))
on_message-Extends m (event (kill id role reason)) c = (_, refl)
on_message-Extends m (event (night_action kind id b)) c =
    on_night_action-Extends m kind id b c.store
on_message-Extends m (event (game_over r)) c = Extends-refl (log c)
on_message-Extends m (event (player_replaced id text)) c = (_, refl)
on_message-Extends m (event (player_joined id name)) c = on_player_joined-Extends m id name c.store
on_message-Extends m (event (player_left id name)) c = (_, refl)

received-Extends :
    (m : String) (f : Frame) (o : Option Socket) (c : Client)
    → Extends (log c) (log (socket_receives m f o c))
unfolding socket_receives
received-Extends m f none c = Extends-refl (log c)
received-Extends m f (some s) c = elim (Bool-cases (is_ready s.ready_state)) [
  | inl can ↦ rw can (on_message-Extends m f c)
  | inr cannot ↦ rw cannot (Extends-refl (log c))
]

step-Extends : (loc : Location) (i : Input) (c : Client) → Extends (log c) (log (step loc i c))
unfolding step clear_result
step-Extends loc clears_result c = Extends-refl (log c)
step-Extends loc (receives h m f) c = received-Extends m f (get_elem? c.sockets h) c
step-Extends loc i c = Extends-of_eq (log c) (ap (λ k. k.0) (step-kept loc i c refl refl))

-- The chat log only grows: over any inputs, calls of `connect` with other rooms included, the old
-- messages stay in front of the new ones.
pub run-Extends :
    (loc : Location) (is : List Input) (c : Client) → Extends (log c) (log (run loc is c))
unfolding run
run-Extends loc [] c = Extends-refl (log c)
run-Extends loc (i ∷ is) c =
    Extends-trans _ _ _ (step-Extends loc i c) (run-Extends loc is (step loc i c))

-- The game that ended last, if a frame ends one.
abbrev pub ended : Frame → GameOverResult → GameOverResult
ended (event (game_over g)) old = g
ended _ old = old

-- A frame is heard on an open socket.
abbrev pub heard : Option Socket → Frame → GameOverResult → GameOverResult
heard none f old = old
heard (some s) f old = elim s.ready_state [ ready ↦ ended f old | _ ↦ old ]

abbrev pub ended_by : Input → Client → GameOverResult → GameOverResult
ended_by (receives h m f) c old = heard (get_elem? c.sockets h) f old
ended_by _ c old = old

-- The game that has ended last after the inputs, if `old` has before them.
unfoldable pub last_ended : Location → List Input → Client → GameOverResult → GameOverResult
unfolding step
last_ended loc [] c old = old
last_ended loc (i ∷ is) c old = last_ended loc is (step loc i c) (ended_by i c old)

abbrev pub HasResult : GameOverResult → Client → Type 0
HasResult g c = c.store.result ≡ some g

on_message-HasResult :
    (m : String) (f : Frame) (c : Client) (g : GameOverResult)
    → HasResult g c
    → HasResult (ended f g) (on_message m f c)
unfolding on_message
on_message-HasResult m unparsed c g h = h
on_message-HasResult m unknown_type c g h = h
on_message-HasResult m (event (initial_state room none role)) c g h = h
on_message-HasResult m (event (initial_state room (some s) role)) c g h = h
on_message-HasResult m (event (phase_change p r d a)) c g h =
    ap (λ t. t.2) (on_phase_change-shown p r d a c) ∙ h
on_message-HasResult m (event (vote voter target result votes)) c g h =
    ap (λ t. t.2) (on_vote-shown voter target votes c.store) ∙ h
on_message-HasResult m (event (night_action kind id b)) c g h = ground arith
on_message-HasResult m (event (player_joined id name)) c g h = ground arith
on_message-HasResult m (event (game_over r)) c g h = refl
on_message-HasResult m (event _) c g h = h

received-HasResult :
    (m : String) (f : Frame) (o : Option Socket) (c : Client) (g : GameOverResult)
    → HasResult g c
    → HasResult (heard o f g) (socket_receives m f o c)
unfolding socket_receives
received-HasResult m f none c g h = h
received-HasResult m f (some s) c g h =
    elim s.ready_state
      as (λ r.
        HasResult (elim r [ ready ↦ ended f g | _ ↦ g ])
          (if is_ready r then on_message m f c else c)) [
            | ready ↦ on_message-HasResult m f c g h
            | _ ↦ h
          ]

step-HasResult :
    (loc : Location) (i : Input) (c : Client) (g : GameOverResult)
    → is_clears i ≡ false
    → HasResult g c
    → HasResult (ended_by i c g) (step loc i c)
unfolding step
step-HasResult loc clears_result c g k h = cc
step-HasResult loc (receives j m f) c g k h = received-HasResult m f (get_elem? c.sockets j) c g h
step-HasResult loc i c g k h = ap (λ t. t.1) (step-kept loc i c refl refl) ∙ h

-- Once a game is over, the store holds the result of the game that ended last, after any inputs
-- without the restart button: nothing else that the server sends, no new game and no other room
-- clears it.
pub result_stays :
    (loc : Location) (is : List Input) (c : Client) (g : GameOverResult)
    → All (λ i. is_clears i ≡ false) is
    → HasResult g c
    → HasResult (last_ended loc is c g) (run loc is c)
unfolding run last_ended
result_stays loc [] c g k h = h
result_stays loc (i ∷ is) c g k h =
    result_stays loc is (step loc i c) (ended_by i c g) k.1 (step-HasResult loc i c g k.0 h)
