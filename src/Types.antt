-- ===== src/Types.antt =====
-- frontend/src/types.ts: the data that the server and the client exchange.
use Prim.Native.Nat.{ℕ}
use Prim.Native.String.{String}
use mathlib.Core.Bool.{Bool}
use mathlib.Core.Option.{Option}
use mathlib.Core.List.{List}

pub data Phase : Type 0 where
  day_discussion day_vote night result : Phase

-- `unassigned` is the empty text.
pub data Role : Type 0 where
  mafia police citizen unassigned : Role

pub record Player : Type 0 where
  pub id : String
  pub name : String
  pub is_alive : Bool
  pub is_ai : Bool

pub data RoomStatus : Type 0 where
  waiting playing finished : RoomStatus

pub data Visibility : Type 0 where
  public private : Visibility

pub record Room : Type 0 where
  pub id : String
  pub name : String
  pub status : RoomStatus
  pub host_id : String
  pub visibility : Visibility
  pub join_code : Option String
  pub max_humans : ℕ
  pub players : List Player

pub record GameSnapshot : Type 0 where
  pub phase : Phase
  pub round : ℕ
  pub timer_remaining_sec : ℕ
  pub alive_player_ids : List String
  pub votes : List (String × String)

pub record GameOverResultPlayer : Type 0 where
  pub id : String
  pub name : String
  pub role : Role
  pub is_ai : Bool
  pub survived : Bool

pub data Winner : Type 0 where
  mafia_win citizen_win aborted : Winner

pub record GameOverResult : Type 0 where
  pub winner : Winner
  pub round : ℕ
  pub duration_sec : ℕ
  pub players : List GameOverResultPlayer
  pub reason : Option String

pub record ChatMessage : Type 0 where
  pub id : String
  pub player_id : String
  pub player_name : Option String
  pub message : String
  pub mafia_only : Bool
  pub is_system : Option Bool

pub data WsStatus : Type 0 where
  connecting connected reconnecting disconnected : WsStatus

-- One constructor for each `type`, with the payload's fields in the source's order. Optional
-- fields are `Option`.
pub data WsEvent : Type 0 where
  initial_state : Room → Option GameSnapshot → Role → WsEvent
  role_assigned : Role → WsEvent
  phase_change : Phase → Option ℕ → Option ℕ → Option (List String) → WsEvent
  chat : String → String → String → Option Bool → WsEvent
  mafia_chat : String → String → String → WsEvent
  vote : Option String → Option String → Option String → Option (List (String × String)) → WsEvent
  kill : String → Option String → Option String → WsEvent
  night_action : String → String → Bool → WsEvent
  game_over : GameOverResult → WsEvent
  player_replaced : String → String → WsEvent
  player_joined : String → String → WsEvent
  player_left : String → String → WsEvent
