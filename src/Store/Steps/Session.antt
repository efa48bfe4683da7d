-- ===== src/Store/Steps/Session.antt =====
-- What a client knows of the game after the events that an open socket brings.
use Prim.Native.Nat.{ℕ}
use Prim.Native.String.{String}
use mathlib.Core.Path.{◌≡◌, refl, ap, sym, subst, ◌∙◌}
use mathlib.Core.Bool.{true}
use mathlib.Core.Option.{Option, none, some}
use mathlib.Core.List.{List, [], ◌∷◌, map}
use ai_with_mafia.Common.Lists.{get_elem?}
use ai_with_mafia.Types.{Room, GameSnapshot, Role, WsEvent, initial_state}
use ai_with_mafia.Store.State.{Client, GameStore, Socket}
use ai_with_mafia.Store.Events.{event, on_event, on_message}
use ai_with_mafia.Store.Updates.{find_player}
use ai_with_mafia.Store.Events.Votes.{players_of}
use ai_with_mafia.Common.Assoc.{lookup}
use ai_with_mafia.Store.Board.{Board, hear, hear_all, enter, member}
use ai_with_mafia.Store.Board.Represents.{Represents, status_of}
use ai_with_mafia.Store.Board.Refines.{hear-Represents}
use ai_with_mafia.Store.Connection.{Location, is_ready}
use ai_with_mafia.Store.Steps.{Input, receives, socket_receives, step, run}
use ai_with_mafia.Store.Steps.Frames.{on_message-link}

-- The events come one after the other on one socket, each with the id of the message it may add.
abbrev pub deliver : ℕ → List (String × WsEvent) → List Input
deliver h [] = []
deliver h ((m, e) ∷ es) = receives h m (event e) ∷ deliver h es

abbrev pub events : List (String × WsEvent) → List WsEvent
events = map (λ e. e.1)

-- The socket is open.
pub record IsOpen (c : Client) (h : ℕ) : Type 0 where
  pub socket : Socket
  pub here : get_elem? c.sockets h ≡ some socket
  pub open_now : is_ready socket.ready_state ≡ true

step-receives :
    (loc : Location) (h : ℕ) (m : String) (e : WsEvent) (c : Client)
    → IsOpen c h
    → step loc (receives h m (event e)) c ≡ on_event m e c
unfolding step socket_receives on_message
step-receives loc h m e c o = rw (o.here, o.open_now) refl

on_event-IsOpen :
    (m : String) (e : WsEvent) (c : Client) (h : ℕ) → IsOpen c h → IsOpen (on_event m e c) h
unfolding on_message
on_event-IsOpen m e c h o = record {
  socket = o.socket;
  here = ap (λ l. get_elem? l.sockets h) (on_message-link m (event e) c) ∙ o.here;
  open_now = o.open_now;
}

-- If a socket is open and the store holds the game that a board shows, then after any events that
-- the socket brings, in whatever number and order, the store holds the game that the board shows
-- after the same events.
pub run-Represents :
    (loc : Location) (h : ℕ) (es : List (String × WsEvent)) (c : Client) (b : Board)
    → IsOpen c h
    → Represents c.store b
    → Represents (run loc (deliver h es) c).store (hear_all (events es) b)
unfolding run hear_all
run-Represents loc h [] c b o r = r
run-Represents loc h ((m, e) ∷ es) c b o r =
    subst (λ x. Represents (run loc (deliver h es) x).store (hear_all (events es) (hear e b)))
      (sym (step-receives loc h m e c o))
      (run-Represents loc h es (on_event m e c) (hear e b) (on_event-IsOpen m e c h o)
        (hear-Represents m e c b r))

-- The board that a store holds.
abbrev board_of : GameStore → Board
board_of s = record {
  me = s.player_id;
  role = s.my_role;
  status = status_of s.room;
  roster = λ j. find_player j (players_of s.room);
  is_living = member s.alive_player_ids;
  ballot = λ j. lookup j s.votes;
  phase = s.phase;
  round = s.round;
  result = s.result;
}

board_of-Represents : (s : GameStore) → Represents s (board_of s)
board_of-Represents s = record {
  me = refl;
  role = refl;
  status = refl;
  roster = λ j. refl;
  living = λ j. refl;
  ballot = λ j. refl;
  phase = refl;
  round = refl;
  result = refl;
}

enter-eq :
    (room : Room) (game : Option GameSnapshot) (role : Role) (a b : Board)
    → a.me ≡ b.me
    → a.result ≡ b.result
    → enter room game role a ≡ enter room game role b
unfolding enter
enter-eq room none role a b e f = rw (e, f) refl
enter-eq room (some g) role a b e f = rw (e, f) refl

-- A snapshot on open sockets brings any two clients of one player that hold the same result to the
-- same game, whatever else each held before; and they stay there as long as they receive the same
-- events.
pub snapshot_resyncs :
    (loc : Location) (h k : ℕ) (m n : String) (room : Room) (game : Option GameSnapshot)
    (role : Role) (es : List (String × WsEvent)) (c d : Client)
    → IsOpen c h
    → IsOpen d k
    → c.store.player_id ≡ d.store.player_id
    → c.store.result ≡ d.store.result
    → (b : Board) × Represents
        (run loc (deliver h ((m, initial_state room game role) ∷ es)) c).store
        b
      × Represents (run loc (deliver k ((n, initial_state room game role) ∷ es)) d).store b
unfolding hear_all hear
snapshot_resyncs loc h k m n room game role es c d o p same result = (
  hear_all (events es) (enter room game role (board_of c.store)),
  run-Represents loc h ((m, initial_state room game role) ∷ es) c (board_of c.store) o
      (board_of-Represents c.store),
  rw (enter-eq room game role (board_of c.store) (board_of d.store) same result) (
      run-Represents loc k ((n, initial_state room game role) ∷ es) d (board_of d.store) p
        (board_of-Represents d.store)),
)
