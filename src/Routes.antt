-- ===== src/Routes.antt =====
-- frontend/src/main.tsx: the routes, and where the pages behind them redirect. How the router reads
-- an address is a parameter.
pub mod Redirects
use Prim.Native.String.{String, ◌++◌ as append}
use mathlib.Core.Option.{Option, none, some}
use ai_with_mafia.Common.Tests.{or_else}
use ai_with_mafia.Store.State.{Client}
use ai_with_mafia.Auth.{AuthStore}
use ai_with_mafia.Profile.{redirect}
use ai_with_mafia.Landing.{leave_landing}
use ai_with_mafia.View.RoomPage.{on_mount}

-- `router`, with the id that a room's path holds.
pub data Route : Type 0 where
  landing_route lobby_route profile_route : Route
  room_route : String → Route

-- The path of a route in the table, with the id in the place of `:id`.
abbrev pub route_path : Route → String
route_path landing_route = "/"
route_path lobby_route = "/lobby"
route_path profile_route = "/profile"
route_path (room_route id) = append "/rooms/" id

-- Where the page of a route navigates by itself, once it is shown.
unfoldable pub redirect_of : Client → AuthStore → Route → Option String
unfolding leave_landing redirect on_mount
redirect_of c a landing_route = leave_landing a
redirect_of c a lobby_route = none
redirect_of c a profile_route = redirect a
redirect_of c a (room_route id) = (on_mount (some id) a.player_id c).1

module _ (match_path : String → Option Route) where
  abbrev pub visit : Option String → Route → Route
  visit none r = r
  visit (some path) r = or_else (match_path path) r

  -- The route after the redirect of its page, if there is one.
  unfoldable pub follow : Client → AuthStore → Route → Route
  unfolding redirect_of
  follow c a r = visit (redirect_of c a r) r
