-- ===== src/Tests/Events.antt =====
-- The events of the server and what the components show.
use mathlib.Core.Path.{◌≡◌, refl}
use mathlib.Core.Logic.{◌⊎◌}
use mathlib.Core.Bool.{true, false}
use mathlib.Core.Option.{none, some}
use mathlib.Core.List.{List, [], ◌∷◌}
use text.Mathlib.Text.{◌==◌}
use ai_with_mafia.Common.Tests.{map_option, or_else}
use ai_with_mafia.Common.Lists.{any}
use ai_with_mafia.Common.Text.{trim}
use ai_with_mafia.Common.Assoc.{lookup, values}
use ai_with_mafia.Types.{mafia, night, day_vote}
use ai_with_mafia.Store.State.{GameStore, OverlayItem, Client, initial_client, initial_store}
use ai_with_mafia.Store.Events.{on_kill, on_vote}
use ai_with_mafia.Store.Updates.{find_player, kill_overlay_item, join_players, leave_players}
use ai_with_mafia.Store.Events.Players.{leave-join}
use ai_with_mafia.Store.Events.Votes.{players_of, dead, on_kill_lem, lookup-on_vote}
use ai_with_mafia.Store.Steps.{run}
use ai_with_mafia.View.Dom.{clicks, kill_click}
use ai_with_mafia.View.VotePanel.{targets, vote_counts, total}
use ai_with_mafia.View.VotePanel.Tally.{count, vote_counts_lem}
use ai_with_mafia.View.Chat.Laws.{Offers, Refuses, chat_input_sends}
use ai_with_mafia.View.Header.{timer_text}
use ai_with_mafia.View.GameRoom.{action_panel}
use ai_with_mafia.View.GameRoom.Powers.{clicks-action_panel}
use ai_with_mafia.View.Cinematic.{same_item, mounted, fires_times}
use ai_with_mafia.View.Cinematic.Laws.{fires_times-mounted, repeated_overlay_stays}
use ai_with_mafia.View.AdBanner.{Sighting, no_impressions, sight_all}
use ai_with_mafia.View.AdBanner.Spacing.{IsSpaced, sight_all-IsSpaced}
use ai_with_mafia.Api.{waiting_slot, result_slot}
use ai_with_mafia.View.RoomPage.{room_page, should_block}
use ai_with_mafia.Store.Steps.History.{last_ended}
use ai_with_mafia.View.RoomPage.Laws.{result_covers}
use ai_with_mafia.Tests.Data.{over, client_runs, here, ann, bob, table, finished_game, joined}

timer_texts : (timer_text 125 ≡ "2:05") × (timer_text 60 ≡ "1:00") × (timer_text 9 ≡ "9s")
unfolding timer_text
timer_texts = (refl, refl, refl)

trims : (trim "  hi there " ≡ "hi there") × (trim " \t " ≡ "")
unfolding trim
trims = (refl, refl)

abbrev in_game : GameStore
in_game = record initial_store {
  player_id = "ann";
  my_role = mafia;
  room = some table;
  phase = some night;
  alive_player_ids = "ann" ∷ "bob" ∷ [];
  votes = ("ann", "bob") ∷ ("bob", "ann") ∷ ("cyd", "bob") ∷ [];
}

on_kill_lem_example :
    let t = on_kill "m" "bob" (some "police") (some "vote") in_game in
    (any (λ a. a == "bob") t.alive_player_ids ≡ false)
    × (find_player "bob" (players_of t.room)
        ≡ map_option dead (find_player "bob" (players_of in_game.room)))
    × (t.votes ≡ in_game.votes)
    × (t.phase ≡ in_game.phase)
    × (t.result ≡ in_game.result)
on_kill_lem_example = on_kill_lem "m" "bob" (some "police") (some "vote") in_game "bob"

lookup-on_vote_example :
    lookup "dan" (on_vote (some "dan") (some "bob") none in_game).votes ≡ some "bob"
lookup-on_vote_example = lookup-on_vote (some "dan") (some "bob") in_game "dan"

leave-join_example :
    leave_players "cyd" (join_players "cyd" "Cyd" (ann ∷ bob ∷ [])) ≡ ann ∷ bob ∷ []
unfolding any
leave-join_example = leave-join "cyd" "Cyd" (ann ∷ bob ∷ []) refl

vote_counts_lem_example :
    (or_else (lookup "bob" (vote_counts in_game.votes)) 0 ≡ count "bob" (values in_game.votes))
    × (total (values (vote_counts in_game.votes)) ≡ 3)
vote_counts_lem_example = vote_counts_lem in_game.votes "bob"

clicks-action_panel_example : clicks (action_panel in_game) ≡ kill_click "bob" ∷ []
unfolding targets
clicks-action_panel_example = clicks-action_panel in_game table refl

abbrev by_day : Client
by_day = record initial_client { store = record in_game { phase = some day_vote } }

chat_input_sends_example : Offers " hi " by_day ⊎ Refuses " hi " by_day
chat_input_sends_example = chat_input_sends " hi " by_day

result_covers_example :
    let c = run here joined (run here finished_game initial_client) in
    (c.store.result ≡ some over)
    × ((room_page false c.store).has_result ≡ true)
    × (should_block c.store ≡ false)
unfolding client_runs last_ended
result_covers_example =
    result_covers here joined (run here finished_game initial_client) over false table
      (refl, (refl, (refl, (refl, tt)))) refl refl

abbrev ann_dies : OverlayItem
ann_dies = kill_overlay_item "Ann" none (some "vote")

abbrev bob_dies : OverlayItem
bob_dies = kill_overlay_item "Bob" none none

fires_times-mounted_example :
    fires_times 3 (mounted (ann_dies ∷ bob_dies ∷ ann_dies ∷ [])) ≡ mounted []
unfolding same_item kill_overlay_item
fires_times-mounted_example =
    fires_times-mounted (ann_dies ∷ bob_dies ∷ ann_dies ∷ []) (refl, (refl, tt))

repeated_overlay_stays_example :
    (fires_times 4 (mounted (bob_dies ∷ bob_dies ∷ ann_dies ∷ []))).queue ≡ bob_dies ∷ ann_dies ∷ []
unfolding same_item kill_overlay_item
repeated_overlay_stays_example = repeated_overlay_stays bob_dies bob_dies (ann_dies ∷ []) 3 refl

-- Three banners: two of the waiting room, and one of the result.
abbrev banners : List Sighting
banners =
    record { slot = waiting_slot; game_id = some "r1"; is_half = true; seen = false; now = 40000 }
    ∷ record { slot = waiting_slot; game_id = some "r1"; is_half = true; seen = false; now = 60000 }
    ∷ record { slot = result_slot; game_id = some "r1"; is_half = true; seen = false; now = 61000 }
    ∷ []

banners_logged :
    (sight_all banners no_impressions).logged ≡ ("result", 61000) ∷ ("waiting", 40000) ∷ []
unfolding sight_all no_impressions
banners_logged = refl

sight_all-IsSpaced_example : IsSpaced (sight_all banners no_impressions).logged
sight_all-IsSpaced_example = sight_all-IsSpaced banners
