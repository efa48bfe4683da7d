-- ===== src/App/Sound.antt =====
-- What every input keeps: the client is in the room of the page that is shown, or idle.
use Prim.Native.String.{String}
use mathlib.Core.Path.{◌≡◌, refl, sym, ◌∙◌}
use mathlib.Core.Logic.{inl, inr}
use mathlib.Core.Bool.{Bool, true, false, not, false≢true}
use mathlib.Core.Option.{Option, none, some}
use mathlib.Core.List.{List, [], ◌∷◌}
use ai_with_mafia.Common.Tests.{if◌then◌else◌, Bool-cases}
use ai_with_mafia.Common.Text.{truthy}
use ai_with_mafia.Store.State.{Client, initial_client}
use ai_with_mafia.Store.Connection.{Location}
use ai_with_mafia.Store.Steps.{Input, connects, disconnects, imports, tokens, step}
use ai_with_mafia.Store.Steps.Link.{link, IsWired}
use ai_with_mafia.Store.Steps.Sockets.{disconnect-IsWired}
use ai_with_mafia.Store.Steps.Wiring.{step-IsWired}
use ai_with_mafia.Store.Steps.Safety.{initial-IsWired}
use ai_with_mafia.Store.Steps.Idle.{is_connects, step-IsIdle}
use ai_with_mafia.Store.Steps.Room.{is_page_call, IsBy}
use ai_with_mafia.Store.Steps.Room.Inputs.{step-InRoom}
use ai_with_mafia.Auth.{AuthInput, get_access_token, auth_step, initial_auth}
use ai_with_mafia.Routes.{Route}
use ai_with_mafia.View.RoomPage.{handle_leave_confirm, handle_leave_cancel}
use ai_with_mafia.App.{
  App, AppInput, goes, confirms, cancels, signs, answers, happens, is_elsewhere, initial_app,
  room_of, player, same_key, blocks, shows, navigate, confirm_leave, cancel_leave, sign, read_auth,
  app_step, app_run,
}
use ai_with_mafia.App.Placed.{joined_room, Placed, resync-IsWired, resync-Placed, disconnect-Placed}

-- A navigation to `r` or a player `q` changes what the effect of the page depends on.
abbrev pub is_new : Route → App → Bool
is_new r a = not (same_key (room_of a.route) (player a) (room_of r) (player a))

-- The input makes the page clean up its effect.
abbrev pub switches : AppInput → App → Bool
switches (goes r) a = if blocks a.route a.client.store then false else is_new r a
switches confirms a = elim a.blocked [ none ↦ false | some r ↦ is_new r a ]
switches (signs i) a =
    not
      (same_key (room_of a.route) (player a) (room_of a.route) (auth_step i a.auth).store.player_id)
switches _ a = false

is_page_call-is_connects : (i : Input) → is_page_call i ≡ false → is_connects i ≡ false
is_page_call-is_connects (connects room_id) h = absurd (false≢true (sym h))
is_page_call-is_connects _ h = refl

is_elsewhere-is_page_call : (i : Input) → is_elsewhere i ≡ false → is_page_call i ≡ false
is_elsewhere-is_page_call (connects room_id) h = h
is_elsewhere-is_page_call disconnects h = h
is_elsewhere-is_page_call (tokens g token) h = refl
is_elsewhere-is_page_call _ h = refl

is_page_call-read_auth : (p : String) (i : Input) → is_page_call (read_auth p i) ≡ is_page_call i
unfolding read_auth
is_page_call-read_auth p (imports g q) = refl
is_page_call-read_auth p _ = refl

read_auth-IsBy : (p : String) (i : Input) → IsBy p (read_auth p i)
unfolding read_auth
read_auth-IsBy p (imports g q) = refl
read_auth-IsBy p _ = tt

-- An input that is no call of the page leaves the client where it is.
step-Placed :
    (loc : Location) (p : String) (o : Option String) (i : Input) (c : Client)
    → is_page_call i ≡ false
    → IsBy p i
    → IsWired (link c)
    → Placed loc p o c
    → Placed loc p o (step loc i c)
step-Placed loc p none i c h by w d = step-IsIdle loc i c (is_page_call-is_connects i h) w d
step-Placed loc p (some id) i c h by w d = step-InRoom loc id p i c h by d

module _ (loc : Location) where
  -- Whenever the effect is cleaned up, no body of `connect` waits.
  unfoldable pub IsPatient : List AppInput → App → Type 0
  unfolding app_step
  IsPatient [] a = Unit
  IsPatient (i ∷ is) a =
      (switches i a ≡ true → a.client.attempts ≡ []) × IsPatient is (app_step loc i a)

  pub record IsSound (a : App) : Type 0 where
    pub wired : IsWired (link a.client)
    pub placed : Placed loc (player a) (joined_room (room_of a.route) (player a)) a.client

  shows-IsSound :
      (r : Route) (a : App)
      → (is_new r a ≡ true → a.client.attempts ≡ [])
      → IsSound a
      → IsSound (shows r a)
  unfolding shows
  shows-IsSound r a free s = record {
    wired = resync-IsWired loc (room_of a.route) (player a) (room_of r) (player a) _ s.wired;
    placed =
        resync-Placed loc (room_of a.route) (player a) (room_of r) (player a) _ s.wired
          (λ e. free (rw e refl)) s.placed;
  }

  sign-IsSound :
      (i : AuthInput) (a : App)
      → (switches (signs i) a ≡ true → a.client.attempts ≡ [])
      → IsSound a
      → IsSound (sign i a)
  unfolding sign
  sign-IsSound i a free s =
      let q = (auth_step i a.auth).store.player_id in
      record {
        wired = resync-IsWired loc (room_of a.route) (player a) (room_of a.route) q _ s.wired;
        placed =
            resync-Placed loc (room_of a.route) (player a) (room_of a.route) q _ s.wired
              (λ e. free (rw e refl)) s.placed;
      }

  confirm_leave-IsSound :
      (o : Option Route) (a : App)
      → (elim o [ none ↦ false | some r ↦ is_new r a ] ≡ true → a.client.attempts ≡ [])
      → IsSound a
      → IsSound (confirm_leave o a)
  unfolding handle_leave_confirm
  confirm_leave-IsSound none a free s = s
  confirm_leave-IsSound (some r) a free s = shows-IsSound r _ free (record {
    wired = disconnect-IsWired a.client s.wired;
    placed = disconnect-Placed loc _ _ a.client s.wired s.placed;
  })

  cancel_leave-IsSound : (o : Option Route) (a : App) → IsSound a → IsSound (cancel_leave o a)
  unfolding handle_leave_cancel
  cancel_leave-IsSound none a s = s
  cancel_leave-IsSound (some r) a s = record { wired = s.wired; placed = s.placed }

  app_step-IsSound :
      (i : AppInput) (a : App)
      → (switches i a ≡ true → a.client.attempts ≡ [])
      → IsSound a
      → IsSound (app_step loc i a)
  unfolding app_step navigate handle_leave_confirm handle_leave_cancel sign
  app_step-IsSound (goes r) a free s = elim (Bool-cases (blocks a.route a.client.store)) [
    | inl held ↦ rw held (record { wired = s.wired; placed = s.placed })
    | inr passes ↦ rw passes (let may = rw passes at free in shows-IsSound r a may s)
  ]
  app_step-IsSound confirms a free s = confirm_leave-IsSound a.blocked a free s
  app_step-IsSound cancels a free s = cancel_leave-IsSound a.blocked a s
  app_step-IsSound (signs i) a free s = sign-IsSound i a free s
  app_step-IsSound (answers g session) a free s =
      let arrival = tokens g (get_access_token session) in
      record {
        wired = step-IsWired loc arrival a.client s.wired;
        placed = step-Placed loc (player a) _ arrival a.client refl tt s.wired s.placed;
      }
  app_step-IsSound (happens i) a free s = elim (Bool-cases (is_elsewhere i)) [
    | inl called ↦ rw called s
    | inr apart ↦ rw apart (record {
      wired = step-IsWired loc _ a.client s.wired;
      placed =
          step-Placed loc _ _ _ a.client
            (is_page_call-read_auth (player a) i ∙ is_elsewhere-is_page_call i apart)
            (read_auth-IsBy (player a) i) s.wired s.placed;
    })
  ]

  pub app_run-IsSound :
      (is : List AppInput) (a : App) → IsPatient is a → IsSound a → IsSound (app_run loc is a)
  unfolding app_run IsPatient
  app_run-IsSound [] a free s = s
  app_run-IsSound (i ∷ is) a free s =
      app_run-IsSound is (app_step loc i a) free.1 (app_step-IsSound i a free.0 s)

  initial-Placed : (o : Option String) → Placed loc "" (joined_room o "") initial_client
  unfolding initial_client
  initial-Placed o = elim (Bool-cases (truthy o)) [
    | inl named ↦ rw named (record { no_socket = refl; no_reconnect = refl; no_attempt = refl })
    | inr unnamed ↦ rw unnamed (record { no_socket = refl; no_reconnect = refl; no_attempt = refl })
  ]

  pub initial-IsSound : (r : Route) → IsSound (initial_app r)
  unfolding initial_app initial_client initial_auth
  initial-IsSound r = record { wired = initial-IsWired; placed = initial-Placed (room_of r) }
