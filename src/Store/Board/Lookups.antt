-- ===== src/Store/Board/Lookups.antt =====
-- The players of a room by their ids, through the changes of gameStore.ts.
use Prim.Native.String.{String}
use mathlib.Core.Path.{◌≡◌, refl}
use mathlib.Core.Logic.{inl, inr}
use mathlib.Core.Option.{none, some}
use mathlib.Core.List.{List, [], ◌∷◌, ◌++◌, map}
use native.Mathlib.Omega.{arith}
use text.Mathlib.Text.{◌==◌}
use text.Mathlib.TextEquality.{eq_iff}
use ai_with_mafia.Common.Tests.{if◌then◌else◌, map_option, or_else, is_some, Option-cases}
use ai_with_mafia.Common.Lists.{any}
use ai_with_mafia.Types.{Player}
use ai_with_mafia.Store.Updates.{find_player, mark_dead, join_players, leave_players}
use ai_with_mafia.Store.Board.{at, dead, newcomer}

pub find_player-mark_dead-at :
    (id j : String) (ps : List Player)
    → find_player j (map (mark_dead id) ps)
      ≡ at id (map_option dead (find_player id ps)) (λ k. find_player k ps) j
unfolding find_player mark_dead
find_player-mark_dead-at id j [] = ground arith
find_player-mark_dead-at id j (p ∷ ps) =
    ground (arith, eq_iff p.id id, eq_iff p.id j, eq_iff j id, find_player-mark_dead-at id j ps)

any-eq-find :
    (id : String) (ps : List Player) → any (λ p. p.id == id) ps ≡ is_some (find_player id ps)
unfolding find_player any
any-eq-find id [] = refl
any-eq-find id (p ∷ ps) = ground (arith, any-eq-find id ps)

find_player-concat :
    (j : String) (ps : List Player) (p : Player)
    → find_player j (ps ++ p ∷ []) ≡ (
        if is_some (find_player j ps) then find_player j ps else if p.id == j then some p else none)
unfolding find_player
find_player-concat j [] p = ground arith
find_player-concat j (q ∷ ps) p = ground (arith, find_player-concat j ps p)

pub find_player-join :
    (id name j : String) (ps : List Player)
    → find_player j (join_players id name ps)
      ≡ at id (some (or_else (find_player id ps) (newcomer id name))) (λ k. find_player k ps) j
unfolding join_players
find_player-join id name j ps = elim (Option-cases (find_player id ps)) [
  | inl nobody ↦
      rw (any-eq-find id ps, nobody)
        (ground
          (arith, eq_iff id j, eq_iff j id, find_player-concat j ps (newcomer id name), nobody))
  | inr (p, somebody) ↦ rw (any-eq-find id ps, somebody) (ground (arith, eq_iff j id, somebody))
]

pub find_player-leave :
    (id j : String) (ps : List Player)
    → find_player j (leave_players id ps) ≡ at id none (λ k. find_player k ps) j
unfolding find_player leave_players
find_player-leave id j [] = ground arith
find_player-leave id j (p ∷ ps) =
    ground (arith, eq_iff p.id id, eq_iff p.id j, eq_iff j id, find_player-leave id j ps)
