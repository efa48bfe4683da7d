-- ===== src/Store/Events.antt =====
-- The `switch` of `ws.onmessage` in gameStore.ts.
pub mod Kept
pub mod Own
pub mod Players
pub mod Votes
use Prim.Native.Nat.{ℕ}
use Prim.Native.String.{String, ◌++◌ as append}
use mathlib.Core.Bool.{Bool, true, false, not}
use mathlib.Core.Option.{Option, none, some}
use mathlib.Core.List.{List, [], ◌∷◌, ◌++◌, map}
use text.Mathlib.Text.{◌==◌}
use ai_with_mafia.Common.Tests.{if◌then◌else◌, map_option, or_else}
use ai_with_mafia.Common.Lists.{filter, find, any}
use ai_with_mafia.Common.Text.{not_empty, truthy}
use ai_with_mafia.Common.Assoc.{insert}
use ai_with_mafia.Types.{
  Phase, Role, Player, playing, Room, GameSnapshot, ChatMessage, WsEvent, initial_state,
  role_assigned, phase_change, chat, mafia_chat, vote, kill, night_action, game_over,
  player_replaced, player_joined, player_left,
}
use ai_with_mafia.Store.State.{
  GameStore, Client, kill_overlay, elim_overlay, elim_theme, killed, OverlayItem,
}
use ai_with_mafia.Store.Timer.{clear_timer_interval, start_timer, set_remaining}
use ai_with_mafia.Store.Overlay.{build_phase_overlay, push_overlay}
use ai_with_mafia.Store.Updates.{
  with_store, find_player, name_of, system_message, add_message, map_room, mark_dead, bury,
  join_players, leave_players, is_vote, kill_overlay_item, kill_text, chat_message,
}

-- The case `initial_state`: the clock restarts or stops, then the snapshot is taken over.
unfoldable pub on_initial_state : Room → Option GameSnapshot → Role → Client → Client
unfolding clear_timer_interval start_timer set_remaining
on_initial_state room none my_role c =
    with_store
      (λ s. record s {
        room = some room;
        my_role = my_role;
        phase = none;
        round = 0;
        alive_player_ids = [];
        votes = [];
        timer_remaining_sec = 0;
      })
      (clear_timer_interval c)
on_initial_state room (some game) my_role c =
    with_store
      (λ s. record s {
        room = some room;
        my_role = my_role;
        phase = some game.phase;
        round = game.round;
        alive_player_ids = game.alive_player_ids;
        votes = game.votes;
      })
      (start_timer game.timer_remaining_sec (clear_timer_interval c))

abbrev pub start_timer_if : Option ℕ → Client → Client
start_timer_if none c = c
start_timer_if (some sec) c = start_timer sec c

abbrev pub push_overlay_if : Option OverlayItem → Client → Client
push_overlay_if none c = c
push_overlay_if (some item) c = with_store (push_overlay item) c

abbrev pub set_playing : Room → Room
set_playing r = record r { status = playing }

-- The first `set` of the case `phase_change`: the votes are cleared, absent fields keep their old
-- values, and the room is playing.
abbrev pub change_phase : Phase → Option ℕ → Option (List String) → Client → Client
change_phase phase round alive_players = with_store (λ s. record s {
  phase = some phase;
  round = or_else round s.round;
  alive_player_ids = or_else alive_players s.alive_player_ids;
  votes = [];
  room = map_option set_playing s.room;
})

-- The case `phase_change`: then the clock starts, if there is a duration, and the overlay shows.
unfoldable pub on_phase_change :
    Phase → Option ℕ → Option ℕ → Option (List String) → Client → Client
unfolding start_timer build_phase_overlay push_overlay
on_phase_change phase round duration alive_players c =
    let timed = start_timer_if duration (change_phase phase round alive_players c) in
    push_overlay_if (build_phase_overlay phase round timed.store.my_role) timed

-- The case `vote`: a whole table replaces the votes, a single vote is put into them.
unfoldable pub on_vote :
    Option String → Option String → Option (List (String × String)) → GameStore → GameStore
unfolding insert
on_vote voter target (some votes) s = record s { votes = votes }
on_vote (some voter) (some target) none s =
    if not_empty voter
    then if not_empty target then record s { votes = insert voter target s.votes } else s
    else s
on_vote _ _ none s = s

-- The case `kill`. The name is read from the room as it is before the change.
unfoldable pub on_kill : String → String → Option String → Option String → GameStore → GameStore
unfolding filter mark_dead system_message name_of kill_overlay_item kill_text push_overlay
on_kill msg_id id role reason s =
    push_overlay (kill_overlay_item (name_of s.room id) role reason) (record s {
      alive_player_ids = filter (λ a. not (a == id)) s.alive_player_ids;
      room = map_option (bury id) s.room;
      messages = s.messages ++ system_message msg_id (kill_text role) ∷ [];
    })

-- The case `night_action`: only the result of an investigation is shown.
unfoldable pub on_night_action : String → String → String → Bool → GameStore → GameStore
unfolding name_of system_message
on_night_action msg_id kind target_id is_mafia s =
    if kind == "investigation_result"
    then add_message
        (system_message msg_id (
          append (name_of s.room target_id)
            (append "은(는) " (append (if is_mafia then "마피아입니다" else "마피아가 아닙니다") "."))))
        s
    else s

-- The case `player_replaced`: the room stays as it is.
abbrev pub on_player_replaced : String → String → GameStore → GameStore
on_player_replaced msg_id text = add_message (system_message msg_id text)

-- The case `player_joined`: one's own arrival is ignored.
unfoldable pub on_player_joined : String → String → String → GameStore → GameStore
unfolding join_players system_message
on_player_joined msg_id id name s =
    if id == s.player_id
    then s
    else add_message (system_message msg_id (append name "님이 입장했습니다."))
        (map_room (λ r. record r { players = join_players id name r.players }) s)

unfoldable pub on_player_left : String → String → String → GameStore → GameStore
unfolding leave_players system_message
on_player_left msg_id id name s =
    add_message (system_message msg_id (append name "님이 퇴장했습니다."))
      (map_room (λ r. record r { players = leave_players id r.players }) s)

-- The `switch`. `msg_id` is the fresh id that `Date.now()` and `Math.random()` make.
unfoldable pub on_event : String → WsEvent → Client → Client
unfolding on_initial_state on_phase_change on_vote on_kill on_night_action on_player_joined
    on_player_left chat_message system_message clear_timer_interval
on_event msg_id (initial_state room game my_role) c = on_initial_state room game my_role c
on_event msg_id (role_assigned role) c = with_store (λ s. record s { my_role = role }) c
on_event msg_id (phase_change phase round duration alive) c =
    on_phase_change phase round duration alive c
on_event msg_id (chat sender name text mafia_only) c =
    with_store (add_message (chat_message msg_id sender name text (or_else mafia_only false))) c
on_event msg_id (mafia_chat sender name text) c =
    with_store (add_message (chat_message msg_id sender name text true)) c
on_event msg_id (vote voter target result votes) c = with_store (on_vote voter target votes) c
on_event msg_id (kill id role reason) c = with_store (on_kill msg_id id role reason) c
on_event msg_id (night_action kind target is_mafia) c =
    with_store (on_night_action msg_id kind target is_mafia) c
on_event msg_id (game_over result) c =
    with_store (λ s. record s { result = some result; phase = none }) (clear_timer_interval c)
on_event msg_id (player_replaced id text) c = with_store (on_player_replaced msg_id text) c
on_event msg_id (player_joined id name) c = with_store (on_player_joined msg_id id name) c
on_event msg_id (player_left id name) c = with_store (on_player_left msg_id id name) c

-- What `JSON.parse(e.data)` makes of a frame: an exception, an object with another `type`, or an
-- event.
pub data Frame : Type 0 where
  unparsed : Frame
  unknown_type : Frame
  event : WsEvent → Frame

unfoldable pub on_message : String → Frame → Client → Client
unfolding on_event
on_message msg_id unparsed c = c
on_message msg_id unknown_type c = c
on_message msg_id (event e) c = on_event msg_id e c
