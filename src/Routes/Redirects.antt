-- ===== src/Routes/Redirects.antt =====
-- Where the redirects of the pages lead.
use Prim.Native.String.{String, ◌++◌ as append}
use mathlib.Core.Path.{◌≡◌, refl}
use mathlib.Core.Logic.{◌⊎◌, inl, inr}
use mathlib.Core.Bool.{Bool, true, false, not, ◌&&◌}
use mathlib.Core.Option.{Option, none, some}
use native.Mathlib.Omega.{arith}
use ai_with_mafia.Common.Tests.{is_some, Bool-cases}
use ai_with_mafia.Common.Text.{not_empty}
use ai_with_mafia.Store.State.{Client}
use ai_with_mafia.Auth.{AuthStore, initial_auth}
use ai_with_mafia.Profile.{redirect}
use ai_with_mafia.Landing.{leave_landing}
use ai_with_mafia.View.RoomPage.{on_mount, handle_page_hide}
use ai_with_mafia.Routes.{
  Route, landing_route, lobby_route, profile_route, room_route, redirect_of, follow,
}

excluded : (loading user : Bool) → (not loading && not user) ≡ true → (not loading && user) ≡ false
excluded loading user h = ground arith

-- A room's page stays, or it goes to the lobby.
room_redirect-cases :
    (c : Client) (a : AuthStore) (id : String)
    → (redirect_of c a (room_route id) ≡ none) ⊎ (redirect_of c a (room_route id) ≡ some "/lobby")
unfolding redirect_of on_mount
room_redirect-cases c a id = elim (Bool-cases (not_empty id)) [
  | inl named ↦ elim (Bool-cases (not_empty a.player_id)) [
    | inl known ↦ inl (rw (redirect_of, on_mount, named, known) refl)
    | inr unknown ↦ inr (rw (redirect_of, on_mount, named, unknown) refl)
  ]
  | inr unnamed ↦ inl (rw (redirect_of, on_mount, unnamed) refl)
]

-- If the router knows the addresses of the landing page and of the lobby: in every state of the
-- sign-in, a page redirects at most once, and the page that it leads to stays.
pub redirects_settle :
    (match_path : String → Option Route)
    → match_path "/" ≡ some landing_route
    → match_path "/lobby" ≡ some lobby_route
    → (c : Client) (a : AuthStore) (r : Route) → redirect_of c a (follow match_path c a r) ≡ none
unfolding follow redirect_of leave_landing redirect on_mount
redirects_settle m home lobby c a landing_route =
    elim (Bool-cases (not a.loading && is_some a.user)) [
      | inl leaves ↦ rw (leaves, lobby) refl
      | inr stays ↦ rw (stays, stays) refl
    ]
redirects_settle m home lobby c a lobby_route = refl
redirects_settle m home lobby c a profile_route =
    elim (Bool-cases (not a.loading && not (is_some a.user))) [
      | inl leaves ↦ rw (leaves, home, excluded a.loading (is_some a.user) leaves) refl
      | inr stays ↦ rw (stays, stays) refl
    ]
redirects_settle m home lobby c a (room_route id) = elim (room_redirect-cases c a id) [
  | inl stays ↦ rw (follow, stays, stays) refl
  | inr leaves ↦ rw (follow, leaves, lobby) refl
]

-- When a tab reloads the page of a room, the page that goes sends the request to leave the room, and
-- the new page, whose sign-in has just begun, goes to the lobby without connecting.
pub reload_leaves_room :
    (id player_id : String) (c : Client)
    → not_empty id ≡ true
    → not_empty player_id ≡ true
    → (handle_page_hide (some id) player_id
        ≡ some (record { url = append "/api/rooms/" (append id "/leave"); player_id = player_id }))
      × (on_mount (some id) initial_auth.store.player_id c ≡ (c, some "/lobby"))
unfolding handle_page_hide on_mount initial_auth
reload_leaves_room id player_id c h k = (rw (h, k) refl, rw h refl)
