-- ===== src/Store/Board.antt =====
-- What the events of frontend/src/store/gameStore.ts promise, without lists, clocks and messages: the
-- game as a player knows it, with the players, the living and the votes as functions of an id.
pub mod Lookups
pub mod Represents
pub mod Seats
pub mod Refines
use Prim.Native.Nat.{ℕ}
use Prim.Native.String.{String}
use mathlib.Core.Bool.{Bool, true, false, ◌&&◌}
use mathlib.Core.Option.{Option, none, some}
use mathlib.Core.List.{List, [], ◌∷◌}
use text.Mathlib.Text.{◌==◌}
use ai_with_mafia.Common.Tests.{if◌then◌else◌, map_option, or_else, is_some}
use ai_with_mafia.Common.Lists.{any}
use ai_with_mafia.Common.Text.{truthy}
use ai_with_mafia.Common.Assoc.{lookup}
use ai_with_mafia.Types.{
  Phase, Role, Player, RoomStatus, playing, Room, GameSnapshot, GameOverResult, WsEvent,
  initial_state, role_assigned, phase_change, vote, kill, game_over, player_joined, player_left,
}
use ai_with_mafia.Store.Updates.{find_player}

pub record Board : Type 0 where
  pub me : String
  pub role : Role
  pub status : Option RoomStatus
  pub roster : String → Option Player
  pub is_living : String → Bool
  pub ballot : String → Option String
  pub phase : Option Phase
  pub round : ℕ
  pub result : Option GameOverResult

-- A value at one id, the old function elsewhere.
abbrev pub at {ℓ} : {A : Type ℓ} → String → A → (String → A) → String → A
at id a f j = if j == id then a else f j

abbrev pub member : List String → String → Bool
member ids j = any (λ a. a == j) ids

-- The server's snapshot replaces all but one's own id and the result.
unfoldable pub enter : Room → Option GameSnapshot → Role → Board → Board
enter room none role b = record b {
  role = role;
  status = some room.status;
  roster = λ j. find_player j room.players;
  is_living = λ j. false;
  ballot = λ j. none;
  phase = none;
  round = 0;
}
enter room (some game) role b = record b {
  role = role;
  status = some room.status;
  roster = λ j. find_player j room.players;
  is_living = member game.alive_player_ids;
  ballot = λ j. lookup j game.votes;
  phase = some game.phase;
  round = game.round;
}

-- A new phase: an empty ballot, and what the event does not name stays.
unfoldable pub turn : Phase → Option ℕ → Option (List String) → Board → Board
turn phase round none b = record b {
  status = map_option (λ s. playing) b.status;
  ballot = λ j. none;
  phase = some phase;
  round = or_else round b.round;
}
turn phase round (some living) b = record b {
  status = map_option (λ s. playing) b.status;
  is_living = member living;
  ballot = λ j. none;
  phase = some phase;
  round = or_else round b.round;
}

unfoldable pub cast : Option String → Option String → Board → Board
cast voter target b = record b {
  ballot =
      if truthy voter && truthy target then at (or_else voter "") target b.ballot else b.ballot;
}

abbrev pub dead : Player → Player
dead p = record p { is_alive = false }

unfoldable pub die : String → Board → Board
die id b = record b {
  roster = at id (map_option dead (b.roster id)) b.roster;
  is_living = at id false b.is_living;
}

abbrev pub newcomer : String → String → Player
newcomer id name = record { id = id; name = name; is_alive = true; is_ai = false }

-- Somebody else sits down, if there is a room; a known player keeps the seat.
unfoldable pub sit : String → String → Board → Board
sit id name b = if id == b.me then b else record b {
  roster = λ j.
      if is_some b.status
      then at id (some (or_else (b.roster id) (newcomer id name))) b.roster j
      else b.roster j;
}

unfoldable pub leave : String → Board → Board
leave id b = record b { roster = at id none b.roster }

-- The game as an event changes it. Chat, investigations and replacements change nothing here.
unfoldable pub hear : WsEvent → Board → Board
unfolding enter turn cast die sit leave
hear (initial_state room game role) b = enter room game role b
hear (role_assigned role) b = record b { role = role }
hear (phase_change phase round duration living) b = turn phase round living b
hear (vote voter target result none) b = cast voter target b
hear (vote voter target result (some votes)) b = record b { ballot = λ j. lookup j votes }
hear (kill id role reason) b = die id b
hear (game_over result) b = record b { phase = none; result = some result }
hear (player_joined id name) b = sit id name b
hear (player_left id name) b = leave id b
hear _ b = b

unfoldable pub hear_all : List WsEvent → Board → Board
unfolding hear
hear_all [] b = b
hear_all (e ∷ es) b = hear_all es (hear e b)
