-- ===== src/Store/Events/Players.antt =====
-- The players of the room under the events of the server: ids stay unique, a death marks one
-- player, and leaving undoes joining.
use Prim.Native.String.{String}
use mathlib.Core.Path.{◌≡◌, refl, ◌∙◌, ap}
use mathlib.Core.Logic.{inl, inr}
use mathlib.Core.Bool.{Bool, false, ◌||◌}
use mathlib.Core.Option.{Option, none, some}
use mathlib.Core.List.{List, [], ◌∷◌, ◌++◌, map}
use native.Mathlib.Omega.{arith}
use text.Mathlib.Text.{◌==◌}
use text.Mathlib.TextEquality.{eq_iff}
use ai_with_mafia.Common.Tests.{Bool-cases, map_option}
use ai_with_mafia.Common.Lists.{any}
use ai_with_mafia.Types.{
  Player, Room, initial_state, role_assigned, phase_change, chat, mafia_chat, vote, kill,
  night_action, game_over, player_replaced, player_joined, player_left,
}
use ai_with_mafia.Store.State.{Client, GameStore}
use ai_with_mafia.Store.Events.Kept.{on_phase_change-shown, on_vote-shown}
use ai_with_mafia.Store.Events.{
  on_night_action, on_player_joined, on_message, set_playing, Frame, unparsed, unknown_type, event,
}
use ai_with_mafia.Store.Updates.{mark_dead, join_players, leave_players}

-- A player with the id is in the list.
abbrev pub has_player : String → List Player → Bool
has_player id = any (λ p. p.id == id)

abbrev pub UniqueIds : List Player → Type 0
UniqueIds [] = Unit
UniqueIds (p ∷ ps) = (has_player p.id ps ≡ false) × UniqueIds ps

abbrev pub IsUnique : Option Room → Type 0
IsUnique none = Unit
IsUnique (some r) = UniqueIds r.players

-- The server's snapshot of the room has unique ids.
abbrev pub SendsUnique : Frame → Type 0
SendsUnique (event (initial_state room game role)) = UniqueIds room.players
SendsUnique _ = Unit

has_player-concat :
    (id : String) (ps : List Player) (p : Player)
    → has_player id (ps ++ p ∷ []) ≡ (has_player id ps || (p.id == id))
unfolding any
has_player-concat id [] p = ground arith
has_player-concat id (q ∷ ps) p = ground (arith, has_player-concat id ps p)

UniqueIds-concat :
    (ps : List Player) (p : Player)
    → has_player p.id ps ≡ false
    → UniqueIds ps
    → UniqueIds (ps ++ p ∷ [])
unfolding any
UniqueIds-concat [] p h u = (refl, tt)
UniqueIds-concat (q ∷ ps) p h u = (
  ground (arith, has_player-concat q.id ps p, eq_iff p.id q.id, eq_iff q.id p.id),
  UniqueIds-concat ps p (ground arith) u.1,
)

join_players-UniqueIds :
    (id name : String) (ps : List Player) → UniqueIds ps → UniqueIds (join_players id name ps)
unfolding join_players
join_players-UniqueIds id name ps u = elim (Bool-cases (has_player id ps)) [
  | inl known ↦ rw known u
  | inr new ↦ rw new (UniqueIds-concat ps _ new u)
]

has_player-leave_ne :
    (id k : String) (ps : List Player)
    → has_player k ps ≡ false
    → has_player k (leave_players id ps) ≡ false
unfolding any leave_players
has_player-leave_ne id k [] h = refl
has_player-leave_ne id k (p ∷ ps) h = ground (arith, has_player-leave_ne id k ps)

leave_players-UniqueIds :
    (id : String) (ps : List Player) → UniqueIds ps → UniqueIds (leave_players id ps)
unfolding leave_players
leave_players-UniqueIds id [] u = tt
leave_players-UniqueIds id (p ∷ ps) u = elim (Bool-cases (p.id == id)) [
  | inl gone ↦ rw gone (leave_players-UniqueIds id ps u.1)
  | inr stays ↦ rw stays (has_player-leave_ne id p.id ps u.0, leave_players-UniqueIds id ps u.1)
]

mark_dead-id : (id : String) (p : Player) → (mark_dead id p).id ≡ p.id
unfolding mark_dead
mark_dead-id id p = ground arith

has_player-mark_dead :
    (id k : String) (ps : List Player) → has_player k (map (mark_dead id) ps) ≡ has_player k ps
unfolding any
has_player-mark_dead id k [] = refl
has_player-mark_dead id k (p ∷ ps) = rw (mark_dead-id id p, has_player-mark_dead id k ps) refl

mark_dead-UniqueIds :
    (id : String) (ps : List Player) → UniqueIds ps → UniqueIds (map (mark_dead id) ps)
mark_dead-UniqueIds id [] u = tt
mark_dead-UniqueIds id (p ∷ ps) u =
    (rw (mark_dead-id id p, has_player-mark_dead id p.id ps) u.0, mark_dead-UniqueIds id ps u.1)

map_option-IsUnique :
    (f : Room → Room) (o : Option Room)
    → ((r : Room) → UniqueIds r.players → UniqueIds (f r).players)
    → IsUnique o
    → IsUnique (map_option f o)
map_option-IsUnique f none k u = tt
map_option-IsUnique f (some r) k u = k r u

on_night_action-room :
    (m kind id : String) (b : Bool) (s : GameStore) → (on_night_action m kind id b s).room ≡ s.room
unfolding on_night_action
on_night_action-room m kind id b s = ground arith

on_player_joined-IsUnique :
    (m id name : String) (s : GameStore)
    → IsUnique s.room
    → IsUnique (on_player_joined m id name s).room
unfolding on_player_joined
on_player_joined-IsUnique m id name s u = elim (Bool-cases (id == s.player_id)) [
  | inl mine ↦ rw mine u
  | inr other ↦
      rw other (map_option-IsUnique _ s.room (λ r. join_players-UniqueIds id name r.players) u)
]

-- Every frame keeps the ids of the players in the room unique, if the snapshots that the server
-- sends have unique ids.
pub on_message-IsUnique :
    (m : String) (f : Frame) (c : Client)
    → SendsUnique f
    → IsUnique c.store.room
    → IsUnique (on_message m f c).store.room
unfolding on_message
on_message-IsUnique m unparsed c g u = u
on_message-IsUnique m unknown_type c g u = u
on_message-IsUnique m (event (initial_state room none role)) c g u = g
on_message-IsUnique m (event (initial_state room (some s) role)) c g u = g
on_message-IsUnique m (event (role_assigned role)) c g u = u
on_message-IsUnique m (event (phase_change p r d a)) c g u =
    rw (ap (λ t. t.0) (on_phase_change-shown p r d a c))
      (map_option-IsUnique set_playing c.store.room (λ r. λ k. k) u)
on_message-IsUnique m (event (chat sender name text mafia_only)) c g u = u
on_message-IsUnique m (event (mafia_chat sender name text)) c g u = u
on_message-IsUnique m (event (vote voter target result votes)) c g u =
    rw (ap (λ t. t.0) (on_vote-shown voter target votes c.store)) u
on_message-IsUnique m (event (kill id role reason)) c g u =
    map_option-IsUnique _ c.store.room (λ r. mark_dead-UniqueIds id r.players) u
on_message-IsUnique m (event (night_action kind id b)) c g u =
    rw (on_night_action-room m kind id b c.store) u
on_message-IsUnique m (event (game_over r)) c g u = u
on_message-IsUnique m (event (player_replaced id text)) c g u = u
on_message-IsUnique m (event (player_joined id name)) c g u =
    on_player_joined-IsUnique m id name c.store u
on_message-IsUnique m (event (player_left id name)) c g u =
    map_option-IsUnique _ c.store.room (λ r. leave_players-UniqueIds id r.players) u

leave_players-absent :
    (id : String) (ps : List Player) → has_player id ps ≡ false → leave_players id ps ≡ ps
unfolding any leave_players
leave_players-absent id [] h = refl
leave_players-absent id (p ∷ ps) h = ground (arith, leave_players-absent id ps)

leave_players-concat :
    (id : String) (ps : List Player) (p : Player)
    → p.id ≡ id
    → leave_players id (ps ++ p ∷ []) ≡ leave_players id ps
unfolding leave_players
leave_players-concat id [] p e = ground (arith, eq_iff p.id id)
leave_players-concat id (q ∷ ps) p e = ground (arith, leave_players-concat id ps p e)

-- A player who joins a room that does not know the id, and leaves, leaves the players as they
-- were.
pub leave-join :
    (id name : String) (ps : List Player)
    → has_player id ps ≡ false
    → leave_players id (join_players id name ps) ≡ ps
unfolding join_players
leave-join id name ps new =
    rw new (leave_players-concat id ps _ refl ∙ leave_players-absent id ps new)
