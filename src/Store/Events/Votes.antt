-- ===== src/Store/Events/Votes.antt =====
-- What a vote and a death change in the store.
use Prim.Native.String.{String}
use mathlib.Core.Path.{◌≡◌, refl}
use mathlib.Core.Bool.{false, not, ◌&&◌}
use mathlib.Core.Option.{Option, none, some}
use mathlib.Core.List.{List, [], ◌∷◌, map}
use native.Mathlib.Omega.{arith}
use text.Mathlib.Text.{◌==◌}
use text.Mathlib.TextEquality.{eq_iff}
use ai_with_mafia.Common.Tests.{if◌then◌else◌, map_option, or_else}
use ai_with_mafia.Common.Lists.{any, filter}
use ai_with_mafia.Common.Text.{truthy}
use ai_with_mafia.Common.Assoc.{lookup, lookup-insert}
use ai_with_mafia.Types.{Player, Room}
use ai_with_mafia.Store.State.{GameStore}
use ai_with_mafia.Store.Events.{on_kill, on_vote}
use ai_with_mafia.Store.Updates.{find_player, mark_dead, bury}

-- A single vote counts if it names a voter and a target that are not empty: then it is the
-- voter's vote, and every other vote stays. Otherwise all votes stay.
pub lookup-on_vote :
    (voter target : Option String) (s : GameStore) (j : String)
    → lookup j (on_vote voter target none s).votes ≡ (
        if truthy voter && truthy target && (or_else voter "" == j)
        then target
        else lookup j s.votes)
unfolding on_vote
lookup-on_vote none target s j = refl
lookup-on_vote (some v) none s j = ground arith
lookup-on_vote (some v) (some t) s j = ground (arith, lookup-insert v j t s.votes)

pub any-filter_ne :
    (id j : String) (ids : List String)
    → any (λ a. a == j) (filter (λ a. not (a == id)) ids)
      ≡ (if j == id then false else any (λ a. a == j) ids)
unfolding any filter
any-filter_ne id j [] = ground arith
any-filter_ne id j (a ∷ ids) =
    ground (arith, eq_iff a id, eq_iff a j, eq_iff j id, any-filter_ne id j ids)

-- The players of a room, or none.
abbrev pub players_of : Option Room → List Player
players_of none = []
players_of (some r) = r.players

-- Nothing but the life of a player is taken.
abbrev pub dead : Player → Player
dead p = record p { is_alive = false }

-- The player with the id `j`, once the player `id` is dead.
abbrev after_death : String → String → Option Player → Option Player
after_death id j o = if j == id then map_option dead o else o

find_player-mark_dead-after :
    (id j : String) (ps : List Player)
    → find_player j (map (mark_dead id) ps) ≡ after_death id j (find_player j ps)
unfolding find_player mark_dead
find_player-mark_dead-after id j [] = ground arith
find_player-mark_dead-after id j (p ∷ ps) =
    ground (arith, eq_iff p.id j, eq_iff p.id id, eq_iff j id, find_player-mark_dead-after id j ps)

find_player-bury-after :
    (id j : String) (o : Option Room)
    → find_player j (players_of (map_option (bury id) o))
      ≡ after_death id j (find_player j (players_of o))
unfolding find_player
find_player-bury-after id j none = ground arith
find_player-bury-after id j (some r) = find_player-mark_dead-after id j r.players

-- After a death the dead id is no longer among the living and every other id is as before; the
-- player with the id, if the room has one, is the same but for being alive no more, and every other
-- player is as before; votes, phase and result stay.
pub on_kill_lem :
    (m id : String) (role reason : Option String) (s : GameStore) (j : String)
    → let t = on_kill m id role reason s in
      (any (λ a. a == j) t.alive_player_ids
        ≡ (if j == id then false else any (λ a. a == j) s.alive_player_ids))
      × (find_player j (players_of t.room) ≡ (
          if j == id
          then map_option dead (find_player j (players_of s.room))
          else find_player j (players_of s.room)))
      × (t.votes ≡ s.votes)
      × (t.phase ≡ s.phase)
      × (t.result ≡ s.result)
unfolding on_kill
on_kill_lem m id role reason s j =
    (any-filter_ne id j s.alive_player_ids, find_player-bury-after id j s.room, refl, refl, refl)
