-- ===== src/Tests/Screens.antt =====
-- The pages around the game: landing, lobby, profile and the routes between them.
use Prim.Native.Nat.{ℕ}
use Prim.Native.String.{String}
use mathlib.Core.Path.{◌≡◌, refl}
use mathlib.Core.Bool.{true, false}
use mathlib.Core.Option.{Option, none, some}
use mathlib.Core.List.{List, [], ◌∷◌}
use ai_with_mafia.Common.Lists.{All}
use ai_with_mafia.Common.Text.{trim, utf16_length, includes}
use ai_with_mafia.Types.{public, private}
use ai_with_mafia.Store.State.{initial_client}
use ai_with_mafia.Auth.{initial_auth}
use ai_with_mafia.Api.{update_me, fulfilled, list_rooms, create_room, join_room}
use ai_with_mafia.Lobby.{LobbyState, initial_lobby, room_path}
use ai_with_mafia.Lobby.Run.{
  LobbyInput, fetches, types_name, creates, fetched, clicks_row, joins, types_code, joins_by_code,
  initial_lobby_client, lobby_run,
}
use ai_with_mafia.Lobby.Run.Calls.{Asks, lobby_run-Asks}
use ai_with_mafia.Profile.{
  ProfileClient, initial_profile, starts_edit, types, saves, profile_run, format_date,
  format_duration,
}
use ai_with_mafia.Profile.Names.{Sends, profile_run-Sends}
use ai_with_mafia.Landing.{
  LandingInput, observes, feed_part, stats_part, feed_ticks, paints, initial_landing, landing_run,
  feed_window, feed_entries,
}
use ai_with_mafia.Landing.Feed.{turn, ring, front, feed_window-landing_run}
use ai_with_mafia.View.Dom.{
  clicks, empty, go_home, go_profile, quick_click, create_click, code_click, refresh_click,
  visibility_click, open_click, close_join, join_click,
}
use ai_with_mafia.View.LobbyPage.{lobby_page}
use ai_with_mafia.View.LobbyPage.Offers.{clicks-lobby_page}
use ai_with_mafia.Routes.{
  Route, landing_route, lobby_route, room_route, route_path, redirect_of, follow,
}
use ai_with_mafia.Routes.Redirects.{redirects_settle}
use ai_with_mafia.Tests.Data.{table}

paths : (route_path (room_route "r1") ≡ room_path "r1") × (route_path lobby_route ≡ "/lobby")
paths = (refl, refl)

formats :
    (format_date (some (0, 9)) ≡ "01-09")
    × (format_date (some (11, 24)) ≡ "12-24")
    × (format_duration 0 ≡ "0분")
    × (format_duration 20 ≡ "1분")
    × (format_duration 90 ≡ "2분")
unfolding format_date format_duration
formats = (refl, refl, refl, refl, refl)

units : (utf16_length "가나" ≡ 2) × (utf16_length "😀" ≡ 2) × (includes "AI 마피아" "마피아" ≡ true)
unfolding utf16_length includes
units = (refl, refl, refl)

abbrev open_lobby : LobbyState
open_lobby = record initial_lobby { rooms = table ∷ []; loading = false; joining_room = some table }

clicks-lobby_page_example :
    clicks (lobby_page empty "Ann" open_lobby)
    ≡ go_home
      ∷ go_profile
      ∷ quick_click
      ∷ visibility_click public
      ∷ visibility_click private
      ∷ create_click
      ∷ code_click
      ∷ refresh_click
      ∷ open_click table
      ∷ close_join
      ∷ close_join
      ∷ join_click
      ∷ []
unfolding clicks initial_lobby
clicks-lobby_page_example = clicks-lobby_page empty "Ann" open_lobby

-- The rates are whole numbers here.
abbrev profile : ProfileClient ℕ
profile = record { state = initial_profile; auth = initial_auth.store; calls = [] }

profile_run-Sends_example :
    All Sends
      (profile_run (starts_edit ∷ types " Ann " ∷ saves ∷ types "" ∷ saves ∷ []) profile).calls
profile_run-Sends_example =
    profile_run-Sends (starts_edit ∷ types " Ann " ∷ saves ∷ types "" ∷ saves ∷ []) profile tt

profile_calls :
    (profile_run (starts_edit ∷ types " Ann " ∷ saves ∷ types "" ∷ saves ∷ []) profile).calls
    ≡ update_me "Ann" ∷ []
unfolding profile_run initial_profile initial_auth trim utf16_length
profile_calls = refl

abbrev scrolled : List LandingInput
scrolled =
    feed_ticks
    ∷ observes stats_part true
    ∷ observes feed_part false
    ∷ feed_ticks
    ∷ paints 7
    ∷ observes feed_part true
    ∷ feed_ticks
    ∷ feed_ticks
    ∷ []

feed_window-landing_run_example :
    feed_window (landing_run scrolled initial_landing).feed_offset
    ≡ front (turn (turn feed_entries))
unfolding ring
feed_window-landing_run_example = feed_window-landing_run scrolled

scrolled_feed : (landing_run scrolled initial_landing).feed_offset ≡ 2
unfolding landing_run initial_landing
scrolled_feed = refl

-- A router that knows the fixed paths.
abbrev fixed_path : String → Option Route
fixed_path String.[] = none
fixed_path (String.◌∷◌ c String.[]) = some landing_route
fixed_path (String.◌∷◌ c s) = some lobby_route

redirects_settle_example :
    redirect_of initial_client initial_auth.store
      (follow fixed_path initial_client initial_auth.store (room_route "r1"))
    ≡ none
redirects_settle_example =
    redirects_settle fixed_path refl refl initial_client initial_auth.store (room_route "r1")

-- Ann makes a room, joins the one that is listed, and tries a blank code.
abbrev visit_lobby : List LobbyInput
visit_lobby =
    fetches
    ∷ types_name " Table "
    ∷ creates
    ∷ fetched (fulfilled (some (table ∷ [])))
    ∷ clicks_row 0
    ∷ joins
    ∷ types_code "  "
    ∷ joins_by_code
    ∷ []

lobby_run-Asks_example :
    All (Asks (λ id. id ≡ "r1")) (lobby_run visit_lobby initial_lobby_client).calls
lobby_run-Asks_example =
    lobby_run-Asks (λ id. id ≡ "r1") visit_lobby
      (tt, (tt, (tt, ((refl, tt), (tt, (tt, (tt, (tt, tt))))))))

lobby_calls :
    (lobby_run visit_lobby initial_lobby_client).calls
    ≡ list_rooms ∷ create_room "Table" public none ∷ join_room "r1" ∷ []
unfolding lobby_run initial_lobby trim
lobby_calls = refl
