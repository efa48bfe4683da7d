-- ===== src/Lobby/Run/Calls.antt =====
-- The calls that the lobby makes.
use Prim.Native.Nat.{ℕ, zero, suc}
use Prim.Native.String.{String}
use mathlib.Core.Path.{◌≡◌}
use mathlib.Core.Logic.{inl, inr}
use mathlib.Core.Bool.{Bool, true}
use mathlib.Core.Option.{Option, none, some}
use mathlib.Core.List.{List, [], ◌∷◌}
use ai_with_mafia.Common.Tests.{Bool-cases}
use ai_with_mafia.Common.Text.{trim, truthy, not_empty}
use ai_with_mafia.Common.Text.Trim.{trim-trim}
use ai_with_mafia.Common.Lists.{All, All-concat, get_elem?}
use ai_with_mafia.Types.{Room}
use ai_with_mafia.Api.{
  Settled, fulfilled, fulfilled_empty, thrown, Call, list_rooms, create_room, join_room,
  join_by_code, quick_match,
}
use ai_with_mafia.Lobby.{
  JoinResponse, QuickMatchResponse, LobbyState, initial_lobby, fetch_rooms, rooms_fetched, entered,
  show_join_error, show_create_error, show_code_error, ask_to_join, handle_join_room,
  handle_create_room, handle_quick_match, quick_settled, handle_join_by_code, open_join,
}
use ai_with_mafia.Lobby.Run.{
  LobbyInput, fetches, joins, creates, quick_matches, joins_by_code, closes, fetched, join_replies,
  create_replies, code_replies, quick_replies, clicks_row, types_name, types_code, chooses,
  LobbyClient, initial_lobby_client, asks, noted, open_row, clicked_row, lobby_step, lobby_run,
}

-- A text that is not empty and has no white space at its ends.
abbrev pub IsEntry : String → Type 0
IsEntry text = (not_empty text ≡ true) × (trim text ≡ text)

module _ (P : String → Type 0) where
  -- The calls of the lobby: an entry names a new room or is a code, and `P` holds of a room to join.
  abbrev pub Asks : Call → Type 0
  Asks list_rooms = Unit
  Asks quick_match = Unit
  Asks (create_room name visibility max_humans) = IsEntry name
  Asks (join_by_code code) = IsEntry code
  Asks (join_room id) = P id
  Asks _ = ⊥

  abbrev pub AllListed : List Room → Type 0
  AllListed = All (λ r. P r.id)

  -- If the input lists rooms, `P` holds of them.
  abbrev pub Lists : LobbyInput → Type 0
  Lists (fetched (fulfilled (some rooms))) = AllListed rooms
  Lists _ = Unit

  abbrev IsListed : Option Room → Type 0
  IsListed none = Unit
  IsListed (some r) = P r.id

  -- The page knows only rooms of which `P` holds.
  abbrev Knows : LobbyState → Type 0
  Knows s = AllListed s.rooms × IsListed s.joining_room

  abbrev AsksOption : Option Call → Type 0
  AsksOption none = Unit
  AsksOption (some call) = Asks call

  noted-Asks :
      (calls : List Call) (o : Option Call)
      → All Asks calls
      → AsksOption o
      → All Asks (noted calls o)
  noted-Asks calls none h k = h
  noted-Asks calls (some call) h k = All-concat Asks calls h k

  rooms_fetched-Knows :
      (r : Settled (Option (List Room))) (s : LobbyState)
      → Lists (fetched r)
      → Knows s
      → Knows (rooms_fetched r s)
  unfolding rooms_fetched
  rooms_fetched-Knows (fulfilled none) s l k = (tt, k.1)
  rooms_fetched-Knows (fulfilled (some rooms)) s l k = (l, k.1)
  rooms_fetched-Knows fulfilled_empty s l k = (tt, k.1)
  rooms_fetched-Knows (thrown e) s l k = k

  -- An error that is shown changes no room.
  entered-Knows :
      (confirmed : Bool) (show : String → LobbyState → LobbyState) (r : Settled JoinResponse)
      (s : LobbyState)
      → ((m : String) → Knows (show m s))
      → Knows s
      → Knows (entered confirmed show r s).0
  unfolding entered
  entered-Knows confirmed show (fulfilled res) s h k = k
  entered-Knows confirmed show fulfilled_empty s h k = h _
  entered-Knows confirmed show (thrown e) s h k = elim (Bool-cases (truthy e.room_id)) [
    | inl named ↦ rw named k
    | inr unnamed ↦ rw unnamed (h e.message)
  ]

  quick_settled-Knows :
      (r : Settled QuickMatchResponse) (s : LobbyState) → Knows s → Knows (quick_settled r s).0
  unfolding quick_settled
  quick_settled-Knows (fulfilled res) s k = k
  quick_settled-Knows fulfilled_empty s k = k
  quick_settled-Knows (thrown e) s k = k

  get_elem?-IsListed : (rooms : List Room) (i : ℕ) → AllListed rooms → IsListed (get_elem? rooms i)
  get_elem?-IsListed [] i h = tt
  get_elem?-IsListed (r ∷ rooms) zero h = h.0
  get_elem?-IsListed (r ∷ rooms) (suc i) h = get_elem?-IsListed rooms i h.1

  open_row-Knows : (o : Option Room) (s : LobbyState) → IsListed o → Knows s → Knows (open_row o s)
  unfolding open_join
  open_row-Knows none s h k = k
  open_row-Knows (some r) s h k = (k.0, h)

  clicked_row-IsListed : (i : ℕ) (s : LobbyState) → Knows s → IsListed (clicked_row i s)
  clicked_row-IsListed i s k = elim (Bool-cases s.loading) [
    | inl loading ↦ rw loading tt
    | inr loaded ↦ rw loaded (get_elem?-IsListed s.rooms i k.0)
  ]

  -- What a handler leaves: the rooms, and the call.
  abbrev Asked : LobbyState × Option Call → Type 0
  Asked a = Knows a.0 × AsksOption a.1

  ask_to_join-Asked :
      (o : Option Room) (s : LobbyState) → IsListed o → Knows s → Asked (ask_to_join o s)
  ask_to_join-Asked none s h k = (k, tt)
  ask_to_join-Asked (some r) s h k = (k, h)

  handle_join_room-Asked : (s : LobbyState) → Knows s → Asked (handle_join_room s)
  unfolding handle_join_room
  handle_join_room-Asked s k = ask_to_join-Asked s.joining_room s k.1 k

  handle_create_room-Asked : (s : LobbyState) → Knows s → Asked (handle_create_room s)
  unfolding handle_create_room
  handle_create_room-Asked s k = elim (Bool-cases (not_empty (trim s.create_name))) [
    | inl named ↦ rw named (k, (named, trim-trim s.create_name))
    | inr unnamed ↦ rw unnamed (k, tt)
  ]

  handle_join_by_code-Asked : (s : LobbyState) → Knows s → Asked (handle_join_by_code s)
  unfolding handle_join_by_code
  handle_join_by_code-Asked s k = elim (Bool-cases (not_empty (trim s.code_input))) [
    | inl typed ↦ rw typed (k, (typed, trim-trim s.code_input))
    | inr blank ↦ rw blank (k, tt)
  ]

  abbrev IsSound : LobbyClient → Type 0
  IsSound c = Knows c.state × All Asks c.calls

  asks-IsSound :
      (a : LobbyState × Option Call) (c : LobbyClient) → IsSound c → Asked a → IsSound (asks a c)
  asks-IsSound (s, call) c h k = (k.0, noted-Asks c.calls call h.1 k.1)

  lobby_step-IsSound :
      (i : LobbyInput) (c : LobbyClient) → Lists i → IsSound c → IsSound (lobby_step i c)
  unfolding lobby_step
  lobby_step-IsSound fetches c l h = asks-IsSound (fetch_rooms c.state) c h (h.0, tt)
  lobby_step-IsSound (fetched r) c l h = (rooms_fetched-Knows r c.state l h.0, h.1)
  lobby_step-IsSound joins c l h =
      asks-IsSound (handle_join_room c.state) c h (handle_join_room-Asked c.state h.0)
  lobby_step-IsSound (join_replies confirmed r) c l h =
      (entered-Knows confirmed show_join_error r c.state (λ m. h.0) h.0, h.1)
  lobby_step-IsSound creates c l h =
      asks-IsSound (handle_create_room c.state) c h (handle_create_room-Asked c.state h.0)
  lobby_step-IsSound (create_replies confirmed r) c l h =
      (entered-Knows confirmed show_create_error r c.state (λ m. h.0) h.0, h.1)
  lobby_step-IsSound quick_matches c l h = asks-IsSound (handle_quick_match c.state) c h (h.0, tt)
  lobby_step-IsSound (quick_replies r) c l h = (quick_settled-Knows r c.state h.0, h.1)
  lobby_step-IsSound joins_by_code c l h =
      asks-IsSound (handle_join_by_code c.state) c h (handle_join_by_code-Asked c.state h.0)
  lobby_step-IsSound (code_replies confirmed r) c l h =
      (entered-Knows confirmed show_code_error r c.state (λ m. h.0) h.0, h.1)
  lobby_step-IsSound (clicks_row i) c l h =
      (open_row-Knows (clicked_row i c.state) c.state (clicked_row-IsListed i c.state h.0) h.0, h.1)
  lobby_step-IsSound closes c l h = ((h.0.0, tt), h.1)
  lobby_step-IsSound (types_name t) c l h = h
  lobby_step-IsSound (types_code t) c l h = h
  lobby_step-IsSound (chooses v) c l h = h

  lobby_run-IsSound :
      (is : List LobbyInput) (c : LobbyClient) → All Lists is → IsSound c → IsSound (lobby_run is c)
  unfolding lobby_run
  lobby_run-IsSound [] c l h = h
  lobby_run-IsSound (i ∷ is) c l h =
      lobby_run-IsSound is (lobby_step i c) l.1 (lobby_step-IsSound i c l.0 h)

  -- Whatever is clicked, typed and answered: a room that the lobby creates has a name and a code
  -- that it sends has a text, both without white space at their ends, and it asks to join only
  -- rooms that the server has listed, so that `P` holds of each if it holds of all listed rooms.
  pub lobby_run-Asks :
      (is : List LobbyInput) → All Lists is → All Asks (lobby_run is initial_lobby_client).calls
  unfolding initial_lobby
  lobby_run-Asks is l = (lobby_run-IsSound is initial_lobby_client l ((tt, tt), tt)).1
