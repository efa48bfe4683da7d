-- ===== src/Store/Board/Seats.antt =====
-- Joining, leaving and dying, on the store and on the board.
use Prim.Native.String.{String}
use mathlib.Core.Path.{◌≡◌, refl, sym, ◌∙◌, ap}
use mathlib.Core.Logic.{inl, inr}
use mathlib.Core.Bool.{false}
use mathlib.Core.Option.{Option, none, some}
use mathlib.Core.List.{List, map}
use native.Mathlib.Omega.{arith}
use text.Mathlib.Text.{◌==◌}
use ai_with_mafia.Common.Tests.{if◌then◌else◌, map_option, or_else, is_some, Bool-cases}
use ai_with_mafia.Types.{Player, Room}
use ai_with_mafia.Store.State.{GameStore}
use ai_with_mafia.Store.Events.{on_kill, on_player_joined, on_player_left}
use ai_with_mafia.Store.Updates.{find_player, bury, mark_dead, leave_players, join_players}
use ai_with_mafia.Store.Events.Votes.{players_of, any-filter_ne}
use ai_with_mafia.Store.Board.{Board, member, at, die, sit, leave, dead, newcomer}
use ai_with_mafia.Store.Board.Lookups.{
  find_player-mark_dead-at, find_player-join, find_player-leave,
}
use ai_with_mafia.Store.Board.Represents.{status_of, Represents}

at-congr {ℓ} :
    {A : Type ℓ} (id j : String) (a c : A) (f g : String → A)
    → a ≡ c
    → f j ≡ g j
    → at id a f j ≡ at id c g j
at-congr id j a c f g e k = ground arith

-- The players of the store's room, by their ids.
abbrev pub seats : Option Room → String → Option Player
seats o j = find_player j (players_of o)

abbrev with_players : (List Player → List Player) → Room → Room
with_players f r = record r { players = f r.players }

with_players-status :
    (f : List Player → List Player) (o : Option Room)
    → status_of (map_option (with_players f) o) ≡ status_of o
with_players-status f none = refl
with_players-status f (some r) = refl

bury-seats :
    (id j : String) (o : Option Room)
    → seats (map_option (bury id) o) j ≡ at id (map_option dead (seats o id)) (seats o) j
unfolding find_player
bury-seats id j none = ground arith
bury-seats id j (some r) = find_player-mark_dead-at id j r.players

leave-seats :
    (id j : String) (o : Option Room)
    → seats (map_option (with_players (leave_players id)) o) j ≡ at id none (seats o) j
unfolding find_player
leave-seats id j none = ground arith
leave-seats id j (some r) = find_player-leave id j r.players

join-seats :
    (id name j : String) (o : Option Room)
    → seats (map_option (with_players (join_players id name)) o) j ≡ (
        if is_some (status_of o)
        then at id (some (or_else (seats o id) (newcomer id name))) (seats o) j
        else seats o j)
join-seats id name j none = refl
join-seats id name j (some r) = find_player-join id name j r.players

pub die-Represents :
    (m id : String) (role reason : Option String) (s : GameStore) (b : Board)
    → Represents s b
    → Represents (on_kill m id role reason s) (die id b)
unfolding on_kill die
die-Represents m id role reason s b h = record {
  me = h.me;
  role = h.role;
  status = h.status ∙ sym (with_players-status (map (mark_dead id)) s.room);
  roster = λ j.
      at-congr id j _ _ b.roster (seats s.room) (ap (map_option dead) (h.roster id)) (h.roster j)
      ∙ sym (bury-seats id j s.room);
  living = λ j.
      at-congr id j false false b.is_living (member s.alive_player_ids) refl (h.living j)
      ∙ sym (any-filter_ne id j s.alive_player_ids);
  ballot = h.ballot;
  phase = h.phase;
  round = h.round;
  result = h.result;
}

pub leave-Represents :
    (m id name : String) (s : GameStore) (b : Board)
    → Represents s b
    → Represents (on_player_left m id name s) (leave id b)
unfolding on_player_left leave
leave-Represents m id name s b h = record {
  me = h.me;
  role = h.role;
  status = h.status ∙ sym (with_players-status (leave_players id) s.room);
  roster = λ j.
      at-congr id j none none b.roster (seats s.room) refl (h.roster j)
      ∙ sym (leave-seats id j s.room);
  living = h.living;
  ballot = h.ballot;
  phase = h.phase;
  round = h.round;
  result = h.result;
}

-- The seats after somebody else has sat down, by the board.
sit_roster :
    (id name j : String) (s : GameStore) (b : Board)
    → Represents s b
    → (if is_some b.status
        then at id (some (or_else (b.roster id) (newcomer id name))) b.roster j
        else b.roster j)
      ≡ seats (map_option (with_players (join_players id name)) s.room) j
sit_roster id name j s b h =
    rw (h.status, h.roster id, h.roster j, join-seats id name j s.room) refl

pub sit-Represents :
    (m id name : String) (s : GameStore) (b : Board)
    → Represents s b
    → Represents (on_player_joined m id name s) (sit id name b)
unfolding on_player_joined sit
sit-Represents m id name s b h = elim (Bool-cases (id == s.player_id)) [
  | inl mine ↦ rw (mine, ap (λ t. id == t) h.me ∙ mine) h
  | inr other ↦
      rw (other, ap (λ t. id == t) h.me ∙ other)
        (record {
          me = h.me;
          role = h.role;
          status = h.status ∙ sym (with_players-status (join_players id name) s.room);
          roster = λ j. sit_roster id name j s b h;
          living = h.living;
          ballot = h.ballot;
          phase = h.phase;
          round = h.round;
          result = h.result;
        })
]
