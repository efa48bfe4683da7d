-- ===== src/Store/Steps/Attempts.antt =====
-- The bodies of `connect` that wait, the reconnect delay, and what `sendAction` puts on the wire.
use Prim.Native.Nat.{ℕ}
use Prim.Native.String.{String}
use mathlib.Core.Path.{◌≡◌, refl, sym, ◌∙◌, ap}
use mathlib.Core.Logic.{◌≢◌, inl, inr}
use mathlib.Core.Bool.{Bool, true, false, not, ◌&&◌}
use mathlib.Core.Option.{none, some}
use mathlib.Core.List.{List, [], ◌∷◌, ◌++◌}
use native.Mathlib.Omega.{arith}
use text.Mathlib.Text.{◌==◌}
use text.Mathlib.TextEquality.{eq_iff}
use ai_with_mafia.Common.Tests.{if◌then◌else◌, Bool-cases, Option-cases, eqb, eqb_iff, is_some}
use ai_with_mafia.Common.Lists.{
  length, get_elem?, find, filter, find-test, get_elem?-last, get_elem?-modify_at,
}
use ai_with_mafia.Types.{disconnected}
use ai_with_mafia.Store.State.{Client, Socket, Attempt, Stage, importing, awaiting_token, Payload}
use ai_with_mafia.Store.Connection.{
  Location, is_waiting, is_importing, token_ready, after_token, finish_attempt, drop_socket,
  room_url, new_socket, disconnect, send_on, send_action, is_ready,
}
use ai_with_mafia.Store.Steps.Sockets.{length-drop_socket}

-- The client but for its waiting attempts and its status.
abbrev pub rest : Client → Client → Client
rest c d = record d {
  attempts = c.attempts;
  store = record d.store { ws_status = c.store.ws_status };
}

-- `d` is the client `c` with the attempts `waiting`, and with its status if `fails` is false.
abbrev pub IsUntouched : Client → List Attempt → Bool → Client → Type 0
IsUntouched c waiting fails d =
    (rest c d ≡ c)
    × (d.store.ws_status ≡ (if fails then disconnected else c.store.ws_status))
    × (d.attempts ≡ waiting)

after_token_stale :
    (loc : Location) (g : ℕ) (room_id player_id token : String) (c d : Client)
    → g ≢ d.connect_generation
    → rest c d ≡ c
    → d.store.ws_status ≡ c.store.ws_status
    → IsUntouched c d.attempts (token == "") (after_token loc g room_id player_id token d)
unfolding after_token
after_token_stale loc g room_id player_id token c d old same status =
    elim (Bool-cases (token == "")) [
      | inl empty ↦ rw empty (same, refl, refl)
      | inr full ↦ elim (Bool-cases (eqb g d.connect_generation)) [
        | inl latest ↦ absurd (old ((eqb_iff g _).0 latest))
        | inr other ↦ rw (full, other) (same, status, refl)
      ]
    ]

is_waiting-generation : (g : ℕ) (a : Attempt) → is_waiting g a ≡ true → a.generation ≡ g
is_waiting-generation g a h = ground arith

finish_attempt_stale :
    (loc : Location) (token : String) (st : Stage) (a : Attempt) (c d : Client)
    → is_importing st ≡ false
    → a.generation ≢ d.connect_generation
    → rest c d ≡ c
    → d.store.ws_status ≡ c.store.ws_status
    → IsUntouched c d.attempts (token == "") (finish_attempt loc token st a d)
finish_attempt_stale loc token importing a c d asked old same status = cc
finish_attempt_stale loc token (awaiting_token p) a c d asked old same status =
    after_token_stale loc a.generation a.room_id p token c d old same status

filter-none :
    (p : Attempt → Bool) (xs : List Attempt) → find p xs ≡ none → filter (λ a. not (p a)) xs ≡ xs
unfolding find filter
filter-none p [] h = refl
filter-none p (x ∷ xs) h = elim (Bool-cases (p x)) [
  | inl here ↦ let no = rw here at h in cc
  | inr other ↦ rw other (ap (◌∷◌ x) (filter-none p xs (rw other at h)))
]

is_waiting-stage : (g : ℕ) (a : Attempt) → is_waiting g a ≡ true → is_importing a.stage ≡ false
is_waiting-stage g a h = ground arith

-- The token of an attempt that is not the newest arrives. The attempts that wait for it are taken
-- away, and no other. If there is one and the token is empty, the status becomes `disconnected`. All
-- else in the client stays as it is.
pub stale_attempt :
    (loc : Location) (g : ℕ) (token : String) (c : Client)
    → g ≢ c.connect_generation
    → IsUntouched c
        (filter (λ a. not (is_waiting g a)) c.attempts)
        (is_some (find (is_waiting g) c.attempts) && token == "")
        (token_ready loc g token c)
unfolding token_ready
stale_attempt loc g token c old = elim (Option-cases (find (is_waiting g) c.attempts)) [
  | inl missing ↦
      rw (missing, token_ready) (refl, refl, sym (filter-none (is_waiting g) c.attempts missing))
  | inr (a, found) ↦
      let waits = find-test _ c.attempts found in
      rw (found, token_ready)
        (finish_attempt_stale loc token a.stage a c _ (is_waiting-stage g a waits)
          (λ e. old (sym (is_waiting-generation g a waits) ∙ e)) refl refl)
]

-- An attempt with no token sets the status `disconnected` even when a newer attempt has taken its
-- place, whatever connection that one has opened.
pub stale_attempt_disconnects :
    (loc : Location) (g : ℕ) (c : Client) (a : Attempt) (player_id : String)
    → find (is_waiting g) c.attempts ≡ some a
    → a.stage ≡ awaiting_token player_id
    → g ≢ c.connect_generation
    → (token_ready loc g "" c).store.ws_status ≡ disconnected
unfolding token_ready after_token
stale_attempt_disconnects loc g c a player_id found stage old =
    rw (found, token_ready) (rw stage refl)

-- A socket was opened behind `n` others, and taken into use.
abbrev pub IsOpened : Location → String → String → ℕ → Client → Type 0
IsOpened loc room_id token n d =
    (d.ws ≡ some n) × (get_elem? d.sockets n ≡ some (new_socket (room_url loc room_id token)))

after_token_opens :
    (loc : Location) (g n : ℕ) (room_id player_id token : String) (c : Client)
    → g ≡ c.connect_generation
    → token ≢ ""
    → n ≡ length c.sockets
    → IsOpened loc room_id token n (after_token loc g room_id player_id token c)
unfolding after_token
after_token_opens loc g n room_id player_id token c newest full len =
    elim (Bool-cases (token == "")) [
      | inl empty ↦ absurd (full ((eq_iff token "").0 empty))
      | inr there ↦
          rw (there, (eqb_iff g c.connect_generation).1 newest)
            (
              ap some (sym len),
              get_elem?-last (drop_socket c.ws c.sockets) _ n
                  (len ∙ sym (length-drop_socket c.ws c.sockets)),
            )
    ]

finish_attempt_opens :
    (loc : Location) (n : ℕ) (token player_id : String) (st : Stage) (a : Attempt) (c : Client)
    → st ≡ awaiting_token player_id
    → a.generation ≡ c.connect_generation
    → token ≢ ""
    → n ≡ length c.sockets
    → IsOpened loc a.room_id token n (finish_attempt loc token st a c)
finish_attempt_opens loc n token player_id importing a c stage newest full len = cc
finish_attempt_opens loc n token player_id (awaiting_token p) a c stage newest full len =
    after_token_opens loc a.generation n a.room_id p token c newest full len

-- `disconnect` does not stop the newest attempt: when its token arrives afterwards, a socket is
-- opened and taken into use.
pub disconnect_reopens :
    (loc : Location) (g : ℕ) (token player_id : String) (c : Client) (a : Attempt)
    → find (is_waiting g) c.attempts ≡ some a
    → a.stage ≡ awaiting_token player_id
    → g ≡ c.connect_generation
    → token ≢ ""
    → IsOpened loc a.room_id token (length c.sockets) (token_ready loc g token (disconnect c))
unfolding token_ready disconnect after_token
disconnect_reopens loc g token player_id c a found stage newest full =
    rw (found, token_ready)
      (finish_attempt_opens loc (length c.sockets) token player_id a.stage a _ stage
        (is_waiting-generation g a (find-test _ c.attempts found) ∙ newest) full
        (sym (length-drop_socket c.ws c.sockets)))

-- `sendAction` with a socket in use: if it is open, the frame is put behind what was sent on it;
-- otherwise it stays as it is, and so does every other socket.
pub send_action_sent :
    (kind : String) (payload : Payload) (c : Client) (h j : ℕ) (s : Socket)
    → c.ws ≡ some h
    → get_elem? c.sockets j ≡ some s
    → get_elem? (send_action kind payload c).sockets j
      ≡ some (
          if eqb h j && is_ready s.ready_state
          then record s { sent = s.sent ++ record { kind = kind; payload = payload } ∷ [] }
          else s)
unfolding send_action send_on
send_action_sent kind payload c h j s is e =
    rw is (get_elem?-modify_at c.sockets h j (send_on _) e ∙ ap some (ground arith))
