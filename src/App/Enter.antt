-- ===== src/App/Enter.antt =====
-- What happens when a player who is signed in goes to the page of a room.
use Prim.Native.Nat.{ℕ, ◌+◌}
use Prim.Native.String.{String}
use mathlib.Core.Path.{◌≡◌, refl, sym, ap, subst, ◌∙◌}
use mathlib.Core.Bool.{true, false, not}
use mathlib.Core.Option.{none, some}
use mathlib.Core.List.{List, [], ◌∷◌, ◌++◌}
use native.Mathlib.Omega.{arith}
use text.Mathlib.Text.{◌==◌}
use ai_with_mafia.Common.Tests.{eqb, eqb_iff}
use ai_with_mafia.Common.Lists.{
  length, get_elem?, get_elem?-last, get_elem?-modify_same, find, filter,
}
use ai_with_mafia.Common.Text.{not_empty}
use ai_with_mafia.Types.{connected}
use ai_with_mafia.Store.State.{Client, GameStore, Socket, ready, Attempt, awaiting_token}
use ai_with_mafia.Store.Connection.{
  Location, room_url, connect, imported, read_player, token_ready, is_waiting, after_token,
  open_socket, drop_socket, new_socket, on_open,
}
use ai_with_mafia.Store.Steps.{connects, imports, tokens, opens, step, socket_opens, run}
use ai_with_mafia.Store.Steps.Idle.{IsIdle}
use ai_with_mafia.Auth.{Session, get_access_token}
use ai_with_mafia.Routes.{Route, landing_route, lobby_route, profile_route, room_route}
use ai_with_mafia.View.RoomPage.{on_mount, on_unmount}
use ai_with_mafia.App.{
  App, AppInput, goes, answers, happens, room_of, player, blocks, resync, shows, navigate,
  read_auth, app_run,
}

-- The socket of a room, once it is open.
abbrev pub opened : Location → String → String → Socket
opened loc id token = record {
  url = room_url loc id token;
  ready_state = ready;
  has_onclose = true;
  sent = [];
}

-- The client uses socket `h`, which is open to the room and new, as the player `p`.
pub record IsConnected (loc : Location) (id p token : String) (h : ℕ) (c : Client) : Type 0 where
  pub status : c.store.ws_status ≡ connected
  pub player_id : c.store.player_id ≡ p
  pub in_use : c.ws ≡ some h
  pub socket : get_elem? c.sockets h ≡ some (opened loc id token)

eqb_refl : (n : ℕ) → eqb n n ≡ true
eqb_refl n = ground arith

-- The only attempt, with its player read.
abbrev waiting : ℕ → String → String → Attempt
waiting g id p = record { generation = g; room_id = id; stage = awaiting_token p }

imported-attempts :
    (id p : String) (c : Client)
    → c.attempts ≡ []
    → let g = c.connect_generation + 1 in
      (imported g p (connect id c)).attempts ≡ waiting g id p ∷ []
unfolding connect imported read_player
imported-attempts id p c unasked = rw (unasked, eqb_refl (c.connect_generation + 1)) refl

find-waiting :
    (g : ℕ) (id p : String) → find (is_waiting g) (waiting g id p ∷ []) ≡ some (waiting g id p)
unfolding find
find-waiting g id p = rw (eqb_refl g) refl

filter-waiting :
    (g : ℕ) (id p : String) → filter (λ b. not (is_waiting g b)) (waiting g id p ∷ []) ≡ []
unfolding filter
filter-waiting g id p = rw (eqb_refl g) refl

after_token-open_socket :
    (loc : Location) (g : ℕ) (id p token : String) (c : Client)
    → c.connect_generation ≡ g
    → (token == "") ≡ false
    → after_token loc g id p token c ≡ open_socket loc id p token c
unfolding after_token
after_token-open_socket loc g id p token c newest full =
    rw (full, (eqb_iff g c.connect_generation).1 (sym newest)) refl

token_ready-open_socket :
    (loc : Location) (g : ℕ) (id p token : String) (c : Client)
    → c.attempts ≡ waiting g id p ∷ []
    → c.connect_generation ≡ g
    → (token == "") ≡ false
    → token_ready loc g token c ≡ open_socket loc id p token (record c { attempts = [] })
unfolding token_ready
token_ready-open_socket loc g id p token c alone newest full =
    rw (alone, find-waiting g id p)
      (ap (λ l. after_token loc g id p token (record c { attempts = l })) (filter-waiting g id p)
        ∙ after_token-open_socket loc g id p token (record c { attempts = [] }) newest full)

open_socket-IsConnected :
    (loc : Location) (id p token : String) (c : Client)
    → c.ws ≡ none
    → IsConnected loc id p token
        (length c.sockets)
        (step loc (opens (length c.sockets)) (open_socket loc id p token c))
unfolding step open_socket socket_opens on_open drop_socket new_socket
open_socket-IsConnected loc id p token c unused =
    let last = get_elem?-last c.sockets (new_socket (room_url loc id token)) _ refl in
    rw (unused, last)
      (record {
        status = refl;
        player_id = refl;
        in_use = refl;
        socket =
            get_elem?-modify_same (c.sockets ++ new_socket (room_url loc id token) ∷ [])
              (length c.sockets) (λ s. record s { ready_state = ready }) last;
      })

-- An idle client connects, reads its player, gets its token, and its socket opens.
connect-IsConnected :
    (loc : Location) (id p token : String) (c : Client)
    → c.attempts ≡ []
    → c.ws ≡ none
    → (token == "") ≡ false
    → let g = c.connect_generation + 1 in
      IsConnected loc id p token
        (length c.sockets)
        (run loc (connects id ∷ imports g p ∷ tokens g token ∷ opens (length c.sockets) ∷ []) c)
unfolding run connect imported step
connect-IsConnected loc id p token c unasked unused full =
    let g = c.connect_generation + 1 in
    let asking = imported g p (connect id c) in
    subst
      (λ d. IsConnected loc id p token (length c.sockets) (step loc (opens (length c.sockets)) d))
      (sym (
        token_ready-open_socket loc g id p token asking (imported-attempts id p c unasked) refl
          full))
      (open_socket-IsConnected loc id p token (record asking { attempts = [] }) unused)

blocks-none : (r : Route) (s : GameStore) → room_of r ≡ none → blocks r s ≡ false
blocks-none landing_route s away = refl
blocks-none lobby_route s away = refl
blocks-none profile_route s away = refl
blocks-none (room_route id) s away = cc

-- A player who is signed in goes to the page of a room from another page.
navigate-connect :
    (id : String) (a : App)
    → room_of a.route ≡ none
    → not_empty id ≡ true
    → not_empty (player a) ≡ true
    → navigate (room_route id) a
      ≡ record a { route = room_route id; client = connect id a.client; blocked = none }
unfolding navigate shows resync on_mount on_unmount
navigate-connect id a away named known =
    rw (blocks-none a.route a.client.store away, away, named, known) refl

-- To a page, and on until the import and the token have come and a new socket opens.
abbrev pub journey : Route → Session → App → List AppInput
journey r session a =
    goes r
    ∷ happens (imports (a.client.connect_generation + 1) (player a))
    ∷ answers (a.client.connect_generation + 1) (some session)
    ∷ happens (opens (length a.client.sockets))
    ∷ []

-- A player who is signed in and whose client is idle goes from another page to the page of a room.
-- If then the import, a token that is not empty, and the opening of the socket follow, the client is
-- connected: the socket it uses is open, stands at the address of the room with that token, and has
-- sent nothing, and the player id of the game store is that of the sign-in.
pub entry-IsConnected :
    (loc : Location) (id : String) (session : Session) (a : App)
    → room_of a.route ≡ none
    → not_empty id ≡ true
    → not_empty (player a) ≡ true
    → (session.access_token == "") ≡ false
    → IsIdle a.client
    → IsConnected loc id
        (player a)
        session.access_token
        (length a.client.sockets)
        (app_run loc (journey (room_route id) session a) a).client
unfolding app_run get_access_token read_auth token_ready run
entry-IsConnected loc id session a away named known full idle =
    rw (navigate-connect id a away named known) (
      connect-IsConnected loc id (player a) session.access_token a.client idle.no_attempt
        idle.no_socket full)
