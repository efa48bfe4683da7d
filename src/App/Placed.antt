-- ===== src/App/Placed.antt =====
-- Where the client stands: in the room of the page, or idle, and the player it acts as.
use Prim.Native.String.{String}
use mathlib.Core.Path.{◌≡◌, refl, ap, sym}
use mathlib.Core.Logic.{inl, inr}
use mathlib.Core.Bool.{true, false, ◌&&◌}
use mathlib.Core.Option.{Option, none, some}
use mathlib.Core.List.{[]}
use text.Mathlib.Text.{◌==◌}
use text.Mathlib.TextEquality.{eq_iff}
use ai_with_mafia.Common.Tests.{if◌then◌else◌, Bool-cases, and-eq_true}
use ai_with_mafia.Common.Text.{truthy, not_empty}
use ai_with_mafia.Store.State.{Client}
use ai_with_mafia.Store.Connection.{Location, connect, disconnect}
use ai_with_mafia.Store.Steps.Link.{link, IsWired}
use ai_with_mafia.Store.Steps.Sockets.{disconnect-IsWired}
use ai_with_mafia.Store.Steps.Idle.{IsIdle, disconnect-IsIdle}
use ai_with_mafia.Store.Steps.Room.{InRoom, connect-InRoom, disconnect-InRoom}
use ai_with_mafia.View.RoomPage.{on_mount, on_unmount}
use ai_with_mafia.App.{same_room, same_key, resync}

-- The room that the effect of the page connects to, if it connects.
abbrev pub joined_room : Option String → String → Option String
joined_room room_id player_id = if truthy room_id && not_empty player_id then room_id else none

module _ (loc : Location) where
  abbrev pub Placed : String → Option String → Client → Type 0
  Placed p none c = IsIdle c
  Placed p (some id) c = InRoom loc id p c

  pub on_mount-Placed :
      (o : Option String) (p : String) (c : Client)
      → IsIdle c
      → Placed p (joined_room o p) (on_mount o p c).0
  unfolding on_mount
  on_mount-Placed none p c d = d
  on_mount-Placed (some id) p c d = elim (Bool-cases (not_empty id)) [
    | inl named ↦ elim (Bool-cases (not_empty p)) [
      | inl known ↦ rw (named, known) (connect-InRoom loc id p c d.no_attempt d.no_socket)
      | inr unknown ↦ rw (named, unknown) d
    ]
    | inr unnamed ↦ rw unnamed d
  ]

  pub on_unmount-IsIdle :
      (o : Option String) (p : String) (c : Client)
      → IsWired (link c)
      → c.attempts ≡ []
      → Placed p (joined_room o p) c
      → IsIdle (on_unmount o p c)
  unfolding on_unmount
  on_unmount-IsIdle none p c w e d = d
  on_unmount-IsIdle (some id) p c w e d = elim (Bool-cases (not_empty id && not_empty p)) [
    | inl joined ↦ rw joined (disconnect-IsIdle c e w)
    | inr apart ↦ rw apart (let idle = rw apart at d in idle)
  ]

  pub disconnect-Placed :
      (p : String) (o : Option String) (c : Client)
      → IsWired (link c)
      → Placed p o c
      → Placed p o (disconnect c)
  disconnect-Placed p none c w d = disconnect-IsIdle c d.no_attempt w
  disconnect-Placed p (some id) c w d = disconnect-InRoom loc id p c d

pub on_mount-IsWired :
    (o : Option String) (p : String) (c : Client)
    → IsWired (link c)
    → IsWired (link (on_mount o p c).0)
unfolding on_mount connect
on_mount-IsWired none p c w = w
on_mount-IsWired (some id) p c w = elim (Bool-cases (not_empty id)) [
  | inl named ↦ elim (Bool-cases (not_empty p)) [
    | inl known ↦ rw (named, known) w
    | inr unknown ↦ rw (named, unknown) w
  ]
  | inr unnamed ↦ rw unnamed w
]

pub on_unmount-IsWired :
    (o : Option String) (p : String) (c : Client)
    → IsWired (link c)
    → IsWired (link (on_unmount o p c))
unfolding on_unmount
on_unmount-IsWired o p c w = elim (Bool-cases (truthy o && not_empty p)) [
  | inl joined ↦ rw joined (disconnect-IsWired c w)
  | inr apart ↦ rw apart w
]

same_room-eq : (o o' : Option String) → same_room o o' ≡ true → o ≡ o'
same_room-eq none none h = refl
same_room-eq none (some id') h = cc
same_room-eq (some id) none h = cc
same_room-eq (some id) (some id') h = ap some ((eq_iff id id').0 h)

same_key-eq :
    (o : Option String) (p : String) (o' : Option String) (q : String)
    → same_key o p o' q ≡ true
    → (o ≡ o') × (p ≡ q)
same_key-eq o p o' q h =
    let (rooms, players) = and-eq_true (same_room o o') (p == q) h in
    (same_room-eq o o' rooms, (eq_iff p q).0 players)

module _ (loc : Location) (o : Option String) (p : String) (o' : Option String) (q : String) where
  pub resync-IsWired : (c : Client) → IsWired (link c) → IsWired (link (resync o p o' q c))
  unfolding resync
  resync-IsWired c w = elim (Bool-cases (same_key o p o' q)) [
    | inl same ↦ rw same w
    | inr changed ↦ rw changed (on_mount-IsWired o' q _ (on_unmount-IsWired o p c w))
  ]

  -- The effect of the page moves the client from the old room to the new one, if no attempt of
  -- the old one is left behind.
  pub resync-Placed :
      (c : Client)
      → IsWired (link c)
      → (same_key o p o' q ≡ false → c.attempts ≡ [])
      → Placed loc p (joined_room o p) c
      → Placed loc q (joined_room o' q) (resync o p o' q c)
  unfolding resync
  resync-Placed c w free d = elim (Bool-cases (same_key o p o' q)) [
    | inl same ↦
        let (rooms, players) = same_key-eq o p o' q same in rw (same, sym rooms, sym players) d
    | inr changed ↦
        rw changed (on_mount-Placed loc o' q _ (on_unmount-IsIdle loc o p c w (free changed) d))
  ]
