-- ===== src/View/LobbyPage/Offers.antt =====
-- What the lobby offers.
use Prim.Native.Nat.{ℕ, suc}
use Prim.Native.String.{String}
use mathlib.Core.Path.{◌≡◌, refl}
use mathlib.Core.Bool.{Bool, true, false, not, ◌&&◌}
use mathlib.Core.Option.{Option, none, some}
use mathlib.Core.List.{List, [], ◌∷◌, ◌++◌, append-nil}
use ai_with_mafia.Common.Tests.{if◌then◌else◌}
use ai_with_mafia.Common.Text.{not_empty}
use ai_with_mafia.Types.{Room, RoomStatus, waiting, playing, finished, public, private}
use ai_with_mafia.Lobby.{LobbyState}
use ai_with_mafia.View.Dom.{
  Node, Handler, words, element, when, each_from, clicks, clicks-when_none, go_home, go_profile,
  quick_click, create_click, code_click, refresh_click, join_click, close_join, visibility_click,
  open_click,
}
use ai_with_mafia.View.LobbyPage.{
  lobby_page, nav_bar, sidebar, create_form, code_form, list_header, room_list, room_row,
  join_button, join_modal, has_rooms, error_line,
}

-- A row opens its room, twice if the room is waiting: by the row and by its button.
abbrev pub row_offers : RoomStatus → Room → List Handler
row_offers waiting r = open_click r ∷ open_click r ∷ []
row_offers _ r = open_click r ∷ []

abbrev pub rows_offer : List Room → List Handler
rows_offer [] = []
rows_offer (r ∷ rs) = row_offers r.status r ++ rows_offer rs

abbrev pub modal_offers : Option Room → List Handler
modal_offers none = []
modal_offers (some r) = close_join ∷ close_join ∷ join_click ∷ []

error_line-clicks : (t : String) → clicks (error_line t) ≡ []
unfolding clicks
error_line-clicks t = clicks-when_none (not_empty t) (element "span" [] (words t)) refl

join_button-clicks :
    (r : Room) (st : RoomStatus) → open_click r ∷ clicks (join_button r st) ≡ row_offers st r
unfolding clicks
join_button-clicks r waiting = refl
join_button-clicks r playing = refl
join_button-clicks r finished = refl

room_row-clicks : (i : ℕ) (r : Room) → clicks (room_row i r) ≡ row_offers r.status r
unfolding room_row clicks
room_row-clicks i r =
    rw (append-nil (clicks (join_button r r.status))) (join_button-clicks r r.status)

rows-clicks : (i : ℕ) (rs : List Room) → clicks (each_from i room_row rs) ≡ rows_offer rs
unfolding clicks each_from
rows-clicks i [] = refl
rows-clicks i (r ∷ rs) = rw (room_row-clicks i r, rows-clicks (suc i) rs) refl

rows-when :
    (loading : Bool) (rs : List Room)
    → clicks (when (not loading && has_rooms rs) (element "div" [] (each_from 0 room_row rs)))
      ≡ (if loading then [] else rows_offer rs)
unfolding clicks
rows-when true rs = refl
rows-when false [] = refl
rows-when false (r ∷ rs) = rows-clicks 0 (r ∷ rs)

room_list-clicks :
    (s : LobbyState)
    → clicks (room_list s) ≡ refresh_click ∷ (if s.loading then [] else rows_offer s.rooms)
unfolding room_list list_header clicks
room_list-clicks s =
    rw
      (
        clicks-when_none s.loading (element "div" [] (words "LOADING...")) refl,
        clicks-when_none (not s.loading && not_empty s.list_error)
            (element "div" [] (words s.list_error)) refl,
        clicks-when_none (not s.loading && not (not_empty s.list_error) && not (has_rooms s.rooms))
            _ refl,
        rows-when s.loading s.rooms,
        append-nil,
      )
      refl

sidebar-clicks :
    (s : LobbyState)
    → clicks (sidebar s)
      ≡ quick_click
        ∷ visibility_click public
        ∷ visibility_click private
        ∷ create_click
        ∷ code_click
        ∷ []
unfolding sidebar create_form code_form clicks
sidebar-clicks s = rw (error_line-clicks s.create_error, error_line-clicks s.code_error) refl

join_modal-clicks : (s : LobbyState) (o : Option Room) → clicks (join_modal s o) ≡ modal_offers o
unfolding clicks
join_modal-clicks s none = refl
join_modal-clicks s (some r) = rw (error_line-clicks s.join_error) refl

-- The lobby always offers the way home and to the profile, the quick match, both visibilities, the
-- two forms and a refresh. Once the list is loaded it offers to open every room in it, whatever the
-- room's status, and an open modal offers to close it and to join.
pub clicks-lobby_page :
    (banner : Node) (name : String) (s : LobbyState)
    → clicks (lobby_page banner name s)
      ≡ go_home
        ∷ go_profile
        ∷ quick_click
        ∷ visibility_click public
        ∷ visibility_click private
        ∷ create_click
        ∷ code_click
        ∷ refresh_click
        ∷ ((if s.loading then [] else rows_offer s.rooms)
            ++ (modal_offers s.joining_room ++ clicks banner))
unfolding lobby_page nav_bar clicks
clicks-lobby_page banner name s =
    rw
      (
        sidebar-clicks s,
        room_list-clicks s,
        join_modal-clicks s s.joining_room,
        append-nil,
        append-nil,
      )
      refl
