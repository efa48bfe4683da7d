-- ===== src/Store/Board/Represents.antt =====
-- When a store holds the game that a board shows.
use Prim.Native.Nat.{ℕ}
use Prim.Native.String.{String}
use mathlib.Core.Path.{◌≡◌, sym, ◌∙◌, ap}
use mathlib.Core.Option.{Option}
use mathlib.Core.List.{List}
use ai_with_mafia.Common.Tests.{map_option}
use ai_with_mafia.Common.Assoc.{lookup}
use ai_with_mafia.Types.{Phase, Role, RoomStatus, Room, GameOverResult}
use ai_with_mafia.Store.State.{GameStore}
use ai_with_mafia.Store.Updates.{find_player}
use ai_with_mafia.Store.Events.Votes.{players_of}
use ai_with_mafia.Store.Board.{Board, member}

abbrev pub status_of : Option Room → Option RoomStatus
status_of = map_option (λ r. r.status)

-- The store holds the game that the board shows: the same answers at every id, in any order.
pub record Represents (s : GameStore) (b : Board) : Type 0 where
  pub me : b.me ≡ s.player_id
  pub role : b.role ≡ s.my_role
  pub status : b.status ≡ status_of s.room
  pub roster : (j : String) → b.roster j ≡ find_player j (players_of s.room)
  pub living : (j : String) → b.is_living j ≡ member s.alive_player_ids j
  pub ballot : (j : String) → b.ballot j ≡ lookup j s.votes
  pub phase : b.phase ≡ s.phase
  pub round : b.round ≡ s.round
  pub result : b.result ≡ s.result

-- All that the board shows of a store.
abbrev pub game :
    GameStore
    → String
      × Role
      × Option Room
      × List String
      × List (String × String)
      × Option Phase
      × ℕ
      × Option GameOverResult
game s = (s.player_id, s.my_role, s.room, s.alive_player_ids, s.votes, s.phase, s.round, s.result)

pub Represents-game :
    (s t : GameStore) (b : Board) → game t ≡ game s → Represents s b → Represents t b
Represents-game s t b e h = record {
  me = h.me ∙ sym (ap (λ g. g.0) e);
  role = h.role ∙ sym (ap (λ g. g.1) e);
  status = h.status ∙ sym (ap (λ g. status_of (g.2)) e);
  roster = λ j. h.roster j ∙ sym (ap (λ g. find_player j (players_of (g.2))) e);
  living = λ j. h.living j ∙ sym (ap (λ g. member (g.3) j) e);
  ballot = λ j. h.ballot j ∙ sym (ap (λ g. lookup j (g.4)) e);
  phase = h.phase ∙ sym (ap (λ g. g.5) e);
  round = h.round ∙ sym (ap (λ g. g.6) e);
  result = h.result ∙ sym (ap (λ g. g.7) e);
}
