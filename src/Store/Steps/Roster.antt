-- ===== src/Store/Steps/Roster.antt =====
-- The ids of the players in the room, over a run.
use Prim.Native.String.{String}
use mathlib.Core.Path.{refl, ap}
use mathlib.Core.Logic.{inl, inr}
use mathlib.Core.Option.{Option, none, some}
use mathlib.Core.List.{List, [], ◌∷◌}
use ai_with_mafia.Common.Tests.{Bool-cases}
use ai_with_mafia.Common.Lists.{All, get_elem?}
use ai_with_mafia.Store.State.{Client, Socket}
use ai_with_mafia.Store.Events.{Frame}
use ai_with_mafia.Store.Events.Players.{IsUnique, SendsUnique, on_message-IsUnique}
use ai_with_mafia.Store.Connection.{Location, is_ready}
use ai_with_mafia.Store.Steps.{
  Input, clears_result, receives, socket_receives, clear_result, step, run,
}
use ai_with_mafia.Store.Steps.Kept.{step-kept}

-- A frame of the server, if the input is one, has unique ids in its snapshot.
abbrev pub BringsUnique : Input → Type 0
BringsUnique (receives h m f) = SendsUnique f
BringsUnique _ = Unit {0}

received-IsUnique :
    (m : String) (f : Frame) (o : Option Socket) (c : Client)
    → SendsUnique f
    → IsUnique c.store.room
    → IsUnique (socket_receives m f o c).store.room
unfolding socket_receives
received-IsUnique m f none c u h = h
received-IsUnique m f (some s) c u h = elim (Bool-cases (is_ready s.ready_state)) [
  | inl can ↦ rw can (on_message-IsUnique m f c u h)
  | inr cannot ↦ rw cannot h
]

step-IsUnique :
    (loc : Location) (i : Input) (c : Client)
    → BringsUnique i
    → IsUnique c.store.room
    → IsUnique (step loc i c).store.room
unfolding step clear_result
step-IsUnique loc clears_result c u h = h
step-IsUnique loc (receives j m f) c u h = received-IsUnique m f (get_elem? c.sockets j) c u h
step-IsUnique loc i c u h = rw (ap (λ k. k.2) (step-kept loc i c refl refl)) h

-- After any inputs from a room whose players have unique ids they have unique ids, if every snapshot
-- that the server sends has.
pub run-IsUnique :
    (loc : Location) (is : List Input) (c : Client)
    → All BringsUnique is
    → IsUnique c.store.room
    → IsUnique (run loc is c).store.room
unfolding run
run-IsUnique loc [] c u h = h
run-IsUnique loc (i ∷ is) c u h =
    run-IsUnique loc is (step loc i c) u.1 (step-IsUnique loc i c u.0 h)
