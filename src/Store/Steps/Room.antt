-- ===== src/Store/Steps/Room.antt =====
-- The room that a connected client belongs to, and the player it acts as.
pub mod Attempts
pub mod Inputs
use Prim.Native.Nat.{ℕ}
use Prim.Native.String.{String}
use mathlib.Core.Path.{◌≡◌, refl, ap, sym, ◌∙◌}
use mathlib.Core.Logic.{inl, inr}
use mathlib.Core.Bool.{Bool, true, false, not}
use mathlib.Core.Option.{Option, none, some}
use mathlib.Core.List.{List, [], ◌∷◌, map}
use native.Mathlib.Omega.{arith}
use text.Mathlib.Text.{◌==◌}
use ai_with_mafia.Common.Tests.{if◌then◌else◌, Bool-cases, Option-cases, eqb, eq_of_some}
use ai_with_mafia.Common.Lists.{
  get_elem?, get_elem?-lt, modify, get_elem?-modify, get_elem?-concat, length, find, filter, any,
  All, All-concat, All-filter, All-map_self,
}
use ai_with_mafia.Store.State.{
  Client, Socket, ready, shut, Attempt, Stage, importing, awaiting_token, Outgoing,
}
use ai_with_mafia.Store.Timer.{clear_timeout, tick}
use ai_with_mafia.Store.Events.{Frame}
use ai_with_mafia.Store.Connection.{
  Location, room_url, connect, disconnect, imported, read_player, is_importing, is_waiting,
  token_ready, after_token, open_socket, new_socket, drop_socket, finish_attempt, on_close, on_open,
  reconnect, send_action, send_to, send_on, is_ready,
}
use ai_with_mafia.Store.Steps.{
  Input, connects, disconnects, sends, shifts, clears_result, imports, tokens, rejects, opens,
  receives, closes, expires, ticks, set_ready_state, is_opening, is_shut, socket_opens,
  socket_receives, socket_closes, step,
}
use ai_with_mafia.Store.Steps.Frames.{on_message-link, on_message-plan, tick-link}
use ai_with_mafia.Store.Steps.Sockets.{length-drop_socket}

-- A call that only the page of a room makes.
abbrev pub is_page_call : Input → Bool
is_page_call (connects room_id) = true
is_page_call disconnects = true
is_page_call _ = false

-- Where the import of a waiting body reads the player's id, it is this one.
abbrev pub IsBy : String → Input → Type 0
IsBy p (imports g q) = q ≡ p
IsBy p _ = Unit

abbrev pub IsOwn : String → Stage → Type 0
IsOwn p importing = Unit
IsOwn p (awaiting_token q) = q ≡ p

module _ (loc : Location) (id : String) where
  -- The address of the room, with some token.
  abbrev pub IsAddress : String → Type 0
  IsAddress url = (token : String) × (url ≡ room_url loc id token)

  abbrev pub IsUsed : Option ℕ → List Socket → Type 0
  IsUsed ws ss = (h : ℕ) (s : Socket) → get_elem? ss h ≡ some s → ws ≡ some h → IsAddress s.url

module _ (loc : Location) (id p : String) where
  -- A body of `connect` that waits is for this room and this player.
  abbrev pub IsFor : Attempt → Type 0
  IsFor a = (a.room_id ≡ id) × IsOwn p a.stage

  -- What is connected or connects now, or will be by the reconnect, is this room, and the player
  -- with it.
  pub record InRoom (c : Client) : Type 0 where
    pub current : c.current_room_id ≡ id
    pub asked : All IsFor c.attempts
    pub used : IsUsed loc id c.ws c.sockets
    pub own : (h : ℕ) → c.ws ≡ some h → c.store.player_id ≡ p

  -- The client as far as its room goes.
  pub keep-InRoom :
      (c d : Client)
      → d.current_room_id ≡ c.current_room_id
      → d.attempts ≡ c.attempts
      → d.ws ≡ c.ws
      → d.sockets ≡ c.sockets
      → d.store.player_id ≡ c.store.player_id
      → InRoom c
      → InRoom d
  keep-InRoom c d e f g k i r = record {
    current = e ∙ r.current;
    asked = rw f r.asked;
    used = rw (g, k) r.used;
    own = λ h at. i ∙ r.own h (sym g ∙ at);
  }

  pub connect-InRoom : (c : Client) → c.attempts ≡ [] → c.ws ≡ none → InRoom (connect id c)
  unfolding connect
  connect-InRoom c none_waits unused = record {
    current = refl;
    asked = rw none_waits ((refl, tt), tt);
    used = λ h s e at. cc;
    own = λ h at. cc;
  }

  pub disconnect-InRoom : (c : Client) → InRoom c → InRoom (disconnect c)
  unfolding disconnect
  disconnect-InRoom c r = record {
    current = r.current;
    asked = r.asked;
    used = λ h s e at. cc;
    own = λ h at. cc;
  }
