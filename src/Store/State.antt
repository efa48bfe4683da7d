-- ===== src/Store/State.antt =====
-- The state of gameStore.ts: the zustand store, the module's variables, and the browser objects
-- that they hold.
use Prim.Native.Nat.{ℕ}
use Prim.Native.String.{String}
use mathlib.Core.Bool.{Bool}
use mathlib.Core.Option.{Option, none}
use mathlib.Core.List.{List, []}
use ai_with_mafia.Types.{
  Phase, Role, unassigned, Room, GameOverResult, ChatMessage, WsStatus, disconnected,
}

pub data OverlayType : Type 0 where
  phase_overlay kill_overlay elim_overlay : OverlayType

pub data OverlayTheme : Type 0 where
  day vote_theme night_theme elim_theme killed : OverlayTheme

pub record RolePill : Type 0 where
  pub label : String
  pub role : Role

pub record OverlayItem : Type 0 where
  pub kind : OverlayType
  pub title : String
  pub eyebrow : Option String
  pub stamp : Option String
  pub hint : Option String
  pub role_pills : Option (List RolePill)
  pub theme : OverlayTheme
  pub duration_ms : ℕ

-- The data of the interface `GameStore`; its actions are the functions of the other modules.
pub record GameStore : Type 0 where
  pub player_id : String
  pub my_role : Role
  pub room : Option Room
  pub phase : Option Phase
  pub round : ℕ
  pub timer_remaining_sec : ℕ
  pub alive_player_ids : List String
  pub votes : List (String × String)
  pub result : Option GameOverResult
  pub messages : List ChatMessage
  pub ws_status : WsStatus
  pub overlay_queue : List OverlayItem

unfoldable pub initial_store : GameStore
initial_store = record {
  player_id = "";
  my_role = unassigned;
  room = none;
  phase = none;
  round = 0;
  timer_remaining_sec = 0;
  alive_player_ids = [];
  votes = [];
  result = none;
  messages = [];
  ws_status = disconnected;
  overlay_queue = [];
}

-- `WebSocket.readyState`
pub data ReadyState : Type 0 where
  opening ready closing shut : ReadyState

-- The payloads that the components hand to `sendAction`: `{ vote: … }`, `{ night: … }` and
-- `{ chat: … }`.
pub data Payload : Type 0 where
  vote_payload : String → Payload
  night_payload : String → String → Payload
  chat_payload : String → Option Bool → Payload

-- The frame `{ type, ...payload }`.
pub record Outgoing : Type 0 where
  pub kind : String
  pub payload : Payload

-- A socket as the client sees it: whether `onclose` is set, and what was sent.
pub record Socket : Type 0 where
  pub url : String
  pub ready_state : ReadyState
  pub has_onclose : Bool
  pub sent : List Outgoing

-- Where the asynchronous body of `connect` waits: for the import of authStore, or for the access
-- token, with the player id that it has read.
pub data Stage : Type 0 where
  importing : Stage
  awaiting_token : String → Stage

pub record Attempt : Type 0 where
  pub generation : ℕ
  pub room_id : String
  pub stage : Stage

-- The store, the six variables of the module (a socket's name is its index in `sockets`), and
-- the browser's objects: the sockets made so far, the pending timeouts and running intervals by
-- their ids, the next free id, and the bodies of `connect` that wait.
pub record Client : Type 0 where
  pub store : GameStore
  pub ws : Option ℕ
  pub reconnect_timer : Option ℕ
  pub timer_interval : Option ℕ
  pub reconnect_delay : ℕ
  pub current_room_id : String
  pub connect_generation : ℕ
  pub sockets : List Socket
  pub timeouts : List (ℕ × ℕ)
  pub intervals : List ℕ
  pub next_timer : ℕ
  pub attempts : List Attempt

unfoldable pub initial_client : Client
unfolding initial_store
initial_client = record {
  store = initial_store;
  ws = none;
  reconnect_timer = none;
  timer_interval = none;
  reconnect_delay = 1000;
  current_room_id = "";
  connect_generation = 0;
  sockets = [];
  timeouts = [];
  intervals = [];
  next_timer = 0;
  attempts = [];
}
