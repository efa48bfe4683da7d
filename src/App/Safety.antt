-- ===== src/App/Safety.antt =====
-- What holds of the application after any inputs: its client is connected to the room of the page
-- that is shown, or to none.
use Prim.Native.Nat.{ℕ}
use Prim.Native.String.{String}
use mathlib.Core.Path.{◌≡◌, refl}
use mathlib.Core.Bool.{false}
use mathlib.Core.Option.{Option, none, some}
use mathlib.Core.List.{List}
use ai_with_mafia.Common.Lists.{get_elem?}
use ai_with_mafia.Store.State.{Client, Socket}
use ai_with_mafia.Store.Connection.{Location}
use ai_with_mafia.Store.Steps.Link.{is_over}
use ai_with_mafia.Store.Steps.Safety.{live-ws}
use ai_with_mafia.Store.Steps.Idle.{IsIdle}
use ai_with_mafia.Store.Steps.Room.{IsAddress}
use ai_with_mafia.Routes.{Route}
use ai_with_mafia.App.{App, AppInput, initial_app, room_of, player, app_run}
use ai_with_mafia.App.Sound.{IsPatient, app_run-IsSound, initial-IsSound}
use ai_with_mafia.App.Placed.{joined_room, Placed}

module _ (loc : Location) where
  -- The application, opened at a route, after some inputs.
  abbrev pub reached : Route → List AppInput → App
  reached r is = app_run loc is (initial_app r)

  Placed-IsAddress :
      (p : String) (o : Option String) (c : Client) (h : ℕ) (s : Socket)
      → get_elem? c.sockets h ≡ some s
      → c.ws ≡ some h
      → Placed loc p o c
      → (id : String) × (o ≡ some id) × IsAddress loc id s.url × (c.store.player_id ≡ p)
  Placed-IsAddress p none c h s e used d = cc (d.no_socket)
  Placed-IsAddress p (some id) c h s e used d = (id, refl, d.used h s e used, d.own h used)

  -- After any inputs from the start, in which the page never cleans its effect up while a body of
  -- `connect` waits: a socket that connects or is open stands at the address of the room whose page
  -- is shown, with some token, and the player id of the game store is that of the sign-in.
  pub room_page-sockets :
      (r : Route) (is : List AppInput) (h : ℕ) (s : Socket)
      → IsPatient loc is (initial_app r)
      → get_elem? (reached r is).client.sockets h ≡ some s
      → is_over s.ready_state ≡ false
      → (id : String) × (joined_room (room_of (reached r is).route) (player (reached r is))
          ≡ some id)
        × IsAddress loc id s.url
        × ((reached r is).client.store.player_id ≡ player (reached r is))
  room_page-sockets r is h s free e live =
      let a = reached r is in
      let sound = app_run-IsSound loc is (initial_app r) free (initial-IsSound loc r) in
      Placed-IsAddress _ _ a.client h s e (live-ws a.client h s e live sound.wired) sound.placed

  -- After any inputs from the start, in which the page never cleans its effect up while a body of
  -- `connect` waits: on a page that is not a room's, or with nobody signed in, no socket is in use,
  -- no reconnect is pending, and no body of `connect` waits.
  pub other_pages-IsIdle :
      (r : Route) (is : List AppInput)
      → IsPatient loc is (initial_app r)
      → joined_room (room_of (reached r is).route) (player (reached r is)) ≡ none
      → IsIdle (reached r is).client
  other_pages-IsIdle r is free away =
      let s = app_run-IsSound loc is (initial_app r) free (initial-IsSound loc r) in
      let idle = rw away at s.placed in idle
