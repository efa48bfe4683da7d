-- ===== src/Store/Board/Refines.antt =====
-- The events of gameStore.ts do to the store what they promise.
use Prim.Native.Nat.{ℕ}
use Prim.Native.String.{String}
use mathlib.Core.Path.{◌≡◌, refl, sym, subst, ◌∙◌, ap}
use mathlib.Core.Bool.{Bool}
use mathlib.Core.Option.{Option, none, some}
use mathlib.Core.List.{List}
use native.Mathlib.Omega.{arith}
use text.Mathlib.TextEquality.{eq_iff}
use ai_with_mafia.Common.Tests.{map_option, or_else}
use ai_with_mafia.Common.Lists.{any}
use ai_with_mafia.Common.Assoc.{lookup}
use ai_with_mafia.Types.{
  Phase, RoomStatus, playing, Room, WsEvent, initial_state, role_assigned, phase_change, chat,
  mafia_chat, vote, kill, night_action, game_over, player_replaced, player_joined, player_left,
}
use ai_with_mafia.Store.State.{GameStore, Client, OverlayItem}
use ai_with_mafia.Store.Timer.{start_timer}
use ai_with_mafia.Store.Overlay.{push_overlay}
use ai_with_mafia.Store.Events.{
  on_event, on_vote, on_phase_change, on_night_action, change_phase, set_playing, start_timer_if,
  push_overlay_if,
}
use ai_with_mafia.Store.Events.Votes.{lookup-on_vote}
use ai_with_mafia.Store.Board.{Board, enter, turn, cast, hear}
use ai_with_mafia.Store.Board.Represents.{status_of, game, Represents, Represents-game}
use ai_with_mafia.Store.Board.Seats.{seats, die-Represents, leave-Represents, sit-Represents}

on_vote-game :
    (voter target : Option String) (s : GameStore)
    → on_vote voter target none s ≡ record s { votes = (on_vote voter target none s).votes }
unfolding on_vote
on_vote-game none target s = refl
on_vote-game (some v) none s = refl
on_vote-game (some v) (some t) s = ground arith

cast_ballot :
    (voter target : Option String) (j : String) (s : GameStore) (b : Board)
    → b.ballot j ≡ lookup j s.votes
    → (cast voter target b).ballot j ≡ lookup j (on_vote voter target none s).votes
unfolding cast
cast_ballot voter target j s b h = ground (
  arith,
  h,
  lookup-on_vote voter target s j,
  eq_iff (or_else voter "") j,
  eq_iff j (or_else voter ""),
)

cast-Represents :
    (voter target : Option String) (s : GameStore) (b : Board)
    → Represents s b
    → Represents (on_vote voter target none s) (cast voter target b)
unfolding cast
cast-Represents voter target s b h =
    subst (λ t. Represents t (cast voter target b)) (sym (on_vote-game voter target s))
      (record {
        me = h.me;
        role = h.role;
        status = h.status;
        roster = h.roster;
        living = h.living;
        ballot = λ j. cast_ballot voter target j s b (h.ballot j);
        phase = h.phase;
        round = h.round;
        result = h.result;
      })

start_timer_if-game : (d : Option ℕ) (c : Client) → game (start_timer_if d c).store ≡ game c.store
unfolding start_timer
start_timer_if-game none c = refl
start_timer_if-game (some d) c = refl

push_overlay_if-game :
    (o : Option OverlayItem) (c : Client) → game (push_overlay_if o c).store ≡ game c.store
unfolding push_overlay
push_overlay_if-game none c = refl
push_overlay_if-game (some o) c = refl

set_playing-status :
    (o : Option Room)
    → status_of (map_option set_playing o) ≡ map_option (λ (s : RoomStatus). playing) (status_of o)
set_playing-status none = refl
set_playing-status (some r) = refl

set_playing-seats : (j : String) (o : Option Room) → seats (map_option set_playing o) j ≡ seats o j
set_playing-seats j none = refl
set_playing-seats j (some r) = refl

change_phase-Represents :
    (p : Phase) (r : Option ℕ) (a : Option (List String)) (c : Client) (b : Board)
    → Represents c.store b
    → Represents (change_phase p r a c).store (turn p r a b)
unfolding turn lookup
change_phase-Represents p r none c b h = record {
  me = h.me;
  role = h.role;
  status = ap (map_option (λ s. playing)) h.status ∙ sym (set_playing-status c.store.room);
  roster = λ j. h.roster j ∙ sym (set_playing-seats j c.store.room);
  living = h.living;
  ballot = λ j. refl;
  phase = refl;
  round = ap (or_else r) h.round;
  result = h.result;
}
change_phase-Represents p r (some living) c b h = record {
  me = h.me;
  role = h.role;
  status = ap (map_option (λ s. playing)) h.status ∙ sym (set_playing-status c.store.room);
  roster = λ j. h.roster j ∙ sym (set_playing-seats j c.store.room);
  living = λ j. refl;
  ballot = λ j. refl;
  phase = refl;
  round = ap (or_else r) h.round;
  result = h.result;
}

turn-Represents :
    (p : Phase) (r d : Option ℕ) (a : Option (List String)) (c : Client) (b : Board)
    → Represents c.store b
    → Represents (on_phase_change p r d a c).store (turn p r a b)
unfolding on_phase_change
turn-Represents p r d a c b h =
    Represents-game _ _ (turn p r a b)
      (push_overlay_if-game _ _ ∙ start_timer_if-game d (change_phase p r a c))
      (change_phase-Represents p r a c b h)

on_night_action-game :
    (m kind id : String) (b : Bool) (s : GameStore) → game (on_night_action m kind id b s) ≡ game s
unfolding on_night_action
on_night_action-game m kind id b s = ground arith

-- Every event of the server keeps the store and the board in step: the store after the handler holds
-- the game that the board promises after the event.
pub hear-Represents :
    (m : String) (e : WsEvent) (c : Client) (b : Board)
    → Represents c.store b
    → Represents (on_event m e c).store (hear e b)
unfolding on_event hear enter lookup any
hear-Represents m (initial_state room none role) c b h = record {
  me = h.me;
  role = refl;
  status = refl;
  roster = λ j. refl;
  living = λ j. refl;
  ballot = λ j. refl;
  phase = refl;
  round = refl;
  result = h.result;
}
hear-Represents m (initial_state room (some game) role) c b h = record {
  me = h.me;
  role = refl;
  status = refl;
  roster = λ j. refl;
  living = λ j. refl;
  ballot = λ j. refl;
  phase = refl;
  round = refl;
  result = h.result;
}
hear-Represents m (role_assigned role) c b h = record {
  me = h.me;
  role = refl;
  status = h.status;
  roster = h.roster;
  living = h.living;
  ballot = h.ballot;
  phase = h.phase;
  round = h.round;
  result = h.result;
}
hear-Represents m (phase_change p r d a) c b h = turn-Represents p r d a c b h
hear-Represents m (chat sender name text mafia_only) c b h = Represents-game c.store _ b refl h
hear-Represents m (mafia_chat sender name text) c b h = Represents-game c.store _ b refl h
hear-Represents m (vote voter target result none) c b h = cast-Represents voter target c.store b h
hear-Represents m (vote voter target result (some votes)) c b h = record {
  me = h.me;
  role = h.role;
  status = h.status;
  roster = h.roster;
  living = h.living;
  ballot = λ j. refl;
  phase = h.phase;
  round = h.round;
  result = h.result;
}
hear-Represents m (kill id role reason) c b h = die-Represents m id role reason c.store b h
hear-Represents m (night_action kind id is_mafia) c b h =
    Represents-game c.store _ b (on_night_action-game m kind id is_mafia c.store) h
hear-Represents m (game_over result) c b h = record {
  me = h.me;
  role = h.role;
  status = h.status;
  roster = h.roster;
  living = h.living;
  ballot = h.ballot;
  phase = refl;
  round = h.round;
  result = refl;
}
hear-Represents m (player_replaced id text) c b h = Represents-game c.store _ b refl h
hear-Represents m (player_joined id name) c b h = sit-Represents m id name c.store b h
hear-Represents m (player_left id name) c b h = leave-Represents m id name c.store b h
