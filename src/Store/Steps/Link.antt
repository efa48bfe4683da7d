-- ===== src/Store/Steps/Link.antt =====
-- The wiring of the connection: the part of the client that says which socket is in use, with the
-- invariant that keeps it single.
use Prim.Native.Nat.{ℕ, ◌≤◌}
use mathlib.Core.Path.{◌≡◌}
use mathlib.Core.Logic.{◌≢◌, ◌⊎◌}
use mathlib.Core.Bool.{Bool, true, false}
use mathlib.Core.Option.{Option, some}
use mathlib.Core.List.{List, [], ◌∷◌}
use ai_with_mafia.Common.Lists.{get_elem?}
use ai_with_mafia.Store.State.{Client, Socket, ReadyState, opening, ready, closing, shut}

pub record Link : Type 0 where
  pub ws : Option ℕ
  pub sockets : List Socket
  pub timeouts : List (ℕ × ℕ)
  pub reconnect_timer : Option ℕ
  pub reconnect_delay : ℕ

abbrev pub link : Client → Link
link c = record {
  ws = c.ws;
  sockets = c.sockets;
  timeouts = c.timeouts;
  reconnect_timer = c.reconnect_timer;
  reconnect_delay = c.reconnect_delay;
}

-- The socket is closing or closed.
abbrev pub is_over : ReadyState → Bool
is_over opening = false
is_over ready = false
is_over closing = true
is_over shut = true

-- A socket that the client has given up: it is over, and its close is not heard.
abbrev pub IsRetired : Socket → Type 0
IsRetired s = (s.has_onclose ≡ false) × (is_over s.ready_state ≡ true)

-- No close of the socket will be heard any more.
abbrev pub IsDeaf : Socket → Type 0
IsDeaf s = (s.has_onclose ≡ false) ⊎ (s.ready_state ≡ shut)

-- Of a pending reconnect: its id is known, and no other close can be heard.
pub record IsAwaited (l : Link) (t d : ℕ) : Type 0 where
  pub alone : l.timeouts ≡ (t, d) ∷ []
  pub known : l.reconnect_timer ≡ some t
  pub bounded : (1000 ≤ d) × (d ≤ 10000)
  pub closed : (h : ℕ) (s : Socket) → get_elem? l.sockets h ≡ some s → IsDeaf s

pub record IsWired (l : Link) : Type 0 where
  pub retired : (h : ℕ) (s : Socket) → get_elem? l.sockets h ≡ some s → l.ws ≢ some h → IsRetired s
  pub timer : (l.timeouts ≡ []) ⊎ ((t d : ℕ) × IsAwaited l t d)
  pub delay : (1000 ≤ l.reconnect_delay) × (l.reconnect_delay ≤ 10000)
