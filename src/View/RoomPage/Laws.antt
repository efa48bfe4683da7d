-- ===== src/View/RoomPage/Laws.antt =====
-- What the page of a room shows after a game.
use mathlib.Core.Path.{◌≡◌}
use mathlib.Core.Bool.{Bool, true, false}
use mathlib.Core.Option.{some}
use mathlib.Core.List.{List}
use native.Mathlib.Omega.{arith}
use ai_with_mafia.Common.Lists.{All}
use ai_with_mafia.Types.{Room, GameOverResult}
use ai_with_mafia.Store.State.{Client}
use ai_with_mafia.Store.Connection.{Location}
use ai_with_mafia.Store.Steps.{Input, run}
use ai_with_mafia.Store.Steps.Kept.{is_clears}
use ai_with_mafia.Store.Steps.History.{HasResult, last_ended, result_stays}
use ai_with_mafia.View.RoomPage.{should_block, room_page}

-- Once a game is over, then after any inputs without the restart button, also when the host has
-- started the next game or the player has gone to another room: the store holds the result of the
-- game that ended last, and if the page has a room, the result covers it and leaving is not guarded.
pub result_covers :
    (loc : Location) (is : List Input) (c : Client) (g : GameOverResult) (blocked : Bool) (r : Room)
    → All (λ i. is_clears i ≡ false) is
    → HasResult g c
    → (run loc is c).store.room ≡ some r
    → HasResult (last_ended loc is c g) (run loc is c)
      × ((room_page blocked (run loc is c).store).has_result ≡ true)
      × (should_block (run loc is c).store ≡ false)
unfolding room_page should_block
result_covers loc is c g blocked r k h here =
    let there = result_stays loc is c g k h in
    (there, ground (arith, here, there), ground (arith, there))
