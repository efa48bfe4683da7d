-- ===== src/Store/Connection.antt =====
-- `connect`, `disconnect` and `sendAction` of gameStore.ts, with the callbacks of the socket and
-- of the reconnect timer. Each function runs up to the next `await` or to its end.
use Prim.Native.Nat.{ℕ, ◌+◌, ◌*◌, min}
use Prim.Native.String.{String, ◌++◌ as append}
use mathlib.Core.Bool.{Bool, true, false, not}
use mathlib.Core.Option.{Option, none, some}
use mathlib.Core.List.{List, [], ◌∷◌, ◌++◌, map}
use text.Mathlib.Text.{◌==◌}
use ai_with_mafia.Common.Tests.{if◌then◌else◌, eqb}
use ai_with_mafia.Common.Lists.{length, modify, filter, find}
use ai_with_mafia.Types.{WsStatus, connecting, connected, reconnecting, disconnected}
use ai_with_mafia.Store.State.{
  Client, Socket, ReadyState, opening, ready, closing, shut, Attempt, Stage, importing,
  awaiting_token, Outgoing, Payload,
}
use ai_with_mafia.Store.Timer.{clear_reconnect_timer, clear_timer_interval}
use ai_with_mafia.Store.Updates.{with_store}

abbrev pub set_status : WsStatus → Client → Client
set_status st = with_store (λ s. record s { ws_status = st })

-- `window.location`
pub record Location : Type 0 where
  pub protocol : String
  pub host : String

unfoldable pub room_url : Location → String → String → String
room_url loc room_id token =
    append (if loc.protocol == "https:" then "wss:" else "ws:") (
      append "//" (append loc.host (append "/ws/rooms/" (append room_id (append "?token=" token)))))

-- `connect`, up to the import of authStore.
unfoldable pub connect : String → Client → Client
connect room_id c =
    let generation = c.connect_generation + 1 in
    set_status connecting (record c {
      connect_generation = generation;
      current_room_id = room_id;
      attempts =
          c.attempts
          ++ record { generation = generation; room_id = room_id; stage = importing } ∷ [];
    })

abbrev pub is_importing : Stage → Bool
is_importing importing = true
is_importing (awaiting_token _) = false

unfoldable pub read_player : ℕ → String → Attempt → Attempt
read_player g player_id a =
    if eqb a.generation g
    then if is_importing a.stage then record a { stage = awaiting_token player_id } else a
    else a

-- The import is there: the attempt reads the player id and asks for the token.
unfoldable pub imported : ℕ → String → Client → Client
unfolding read_player
imported g player_id c = record c { attempts = map (read_player g player_id) c.attempts }

-- `ws.close()`: a socket that is closing or closed stays so.
abbrev pub close_state : ReadyState → ReadyState
close_state opening = closing
close_state ready = closing
close_state closing = closing
close_state shut = shut

unfoldable pub detach : Socket → Socket
detach s = record s { has_onclose = false; ready_state = close_state s.ready_state }

-- `if (ws) { ws.onclose = null; ws.close() }`
unfoldable pub drop_socket : Option ℕ → List Socket → List Socket
unfolding detach
drop_socket none ss = ss
drop_socket (some h) ss = modify ss h detach

-- `new WebSocket(url)`, with its handlers.
unfoldable pub new_socket : String → Socket
new_socket url = record { url = url; ready_state = opening; has_onclose = true; sent = [] }

unfoldable pub open_socket : Location → String → String → String → Client → Client
unfolding clear_reconnect_timer drop_socket room_url new_socket
open_socket loc room_id player_id token c =
    let named = with_store (λ s. record s { player_id = player_id }) c in
    let cleared = clear_reconnect_timer named in
    record cleared {
      sockets =
          drop_socket cleared.ws cleared.sockets ++ new_socket (room_url loc room_id token) ∷ [];
      ws = some (length cleared.sockets);
    }

-- The rest of `connect` behind the token.
unfoldable pub after_token : Location → ℕ → String → String → String → Client → Client
unfolding open_socket
after_token loc generation room_id player_id token c =
    if token == ""
    then set_status disconnected c
    else if eqb generation c.connect_generation
    then open_socket loc room_id player_id token c
    else c

abbrev pub is_waiting : ℕ → Attempt → Bool
is_waiting g a = if eqb a.generation g then not (is_importing a.stage) else false

abbrev pub finish_attempt : Location → String → Stage → Attempt → Client → Client
finish_attempt loc token importing a c = c
finish_attempt loc token (awaiting_token player_id) a c =
    after_token loc a.generation a.room_id player_id token c

abbrev pub resume : Location → ℕ → String → Option Attempt → Client → Client
resume loc g token none c = c
resume loc g token (some a) c =
    finish_attempt loc token a.stage a
      (record c { attempts = filter (λ b. not (is_waiting g b)) c.attempts })

-- The token is there: the attempt that waits for it, if any, runs to its end.
unfoldable pub token_ready : Location → ℕ → String → Client → Client
unfolding after_token find filter
token_ready loc g token c = resume loc g token (find (is_waiting g) c.attempts) c

-- `ws.onopen`
unfoldable pub on_open : Client → Client
on_open c = set_status connected (record c { reconnect_delay = 1000 })

-- `ws.onclose`: the old timer's id is overwritten.
unfoldable pub on_close : Client → Client
on_close c = set_status reconnecting (record c {
  reconnect_timer = some c.next_timer;
  timeouts = (c.next_timer, c.reconnect_delay) ∷ c.timeouts;
  next_timer = c.next_timer + 1;
})

-- The reconnect timer's callback.
unfoldable pub reconnect : Client → Client
unfolding connect
reconnect c =
    connect c.current_room_id (record c { reconnect_delay = min (c.reconnect_delay * 2) 10000 })

unfoldable pub disconnect : Client → Client
unfolding clear_reconnect_timer clear_timer_interval drop_socket
disconnect c =
    let cleared = clear_timer_interval (clear_reconnect_timer c) in
    set_status disconnected
      (record cleared { sockets = drop_socket cleared.ws cleared.sockets; ws = none })

abbrev pub is_ready : ReadyState → Bool
is_ready ready = true
is_ready _ = false

unfoldable pub send_on : Outgoing → Socket → Socket
send_on frame s = if is_ready s.ready_state then record s { sent = s.sent ++ frame ∷ [] } else s

abbrev pub send_to : Option ℕ → Outgoing → Client → Client
send_to none frame c = c
send_to (some h) frame c = record c { sockets = modify c.sockets h (send_on frame) }

-- `sendAction`: without an open socket the frame is dropped.
unfoldable pub send_action : String → Payload → Client → Client
unfolding send_on
send_action kind payload c = send_to c.ws (record { kind = kind; payload = payload }) c
