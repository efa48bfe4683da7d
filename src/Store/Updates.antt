-- ===== src/Store/Updates.antt =====
-- The updates of the store and the texts that the cases of `ws.onmessage` in gameStore.ts share.
use Prim.Native.String.{String, ◌++◌ as append}
use mathlib.Core.Bool.{Bool, true, false, not}
use mathlib.Core.Option.{Option, none, some}
use mathlib.Core.List.{List, [], ◌∷◌, ◌++◌, map}
use text.Mathlib.Text.{◌==◌}
use ai_with_mafia.Common.Tests.{if◌then◌else◌, map_option, or_else}
use ai_with_mafia.Common.Lists.{filter, find, any}
use ai_with_mafia.Common.Text.{truthy}
use ai_with_mafia.Types.{Player, Room, ChatMessage}
use ai_with_mafia.Store.State.{
  GameStore, Client, kill_overlay, elim_overlay, elim_theme, killed, OverlayItem,
}

-- `set(partial)`
abbrev pub with_store : (GameStore → GameStore) → Client → Client
with_store f c = record c { store = f c.store }

-- `players.find((p) => p.id === id)`
unfoldable pub find_player : String → List Player → Option Player
unfolding find
find_player id = find (λ p. p.id == id)

-- `room?.players.find(…)?.name ?? id`
unfoldable pub name_of : Option Room → String → String
unfolding find_player
name_of none id = id
name_of (some r) id = or_else (map_option (λ p. p.name) (find_player id r.players)) id

unfoldable pub system_message : String → String → ChatMessage
system_message msg_id text = record {
  id = msg_id;
  player_id = "system";
  player_name = none;
  message = text;
  mafia_only = false;
  is_system = some true;
}

-- `messages: [...s.messages, msg]`
abbrev pub add_message : ChatMessage → GameStore → GameStore
add_message msg s = record s { messages = s.messages ++ msg ∷ [] }

abbrev pub map_room : (Room → Room) → GameStore → GameStore
map_room f s = record s { room = map_option f s.room }

-- `{ ...p, is_alive: false }` for the player who died
unfoldable pub mark_dead : String → Player → Player
mark_dead id p = if p.id == id then record p { is_alive = false } else p

abbrev pub bury : String → Room → Room
bury id r = record r { players = map (mark_dead id) r.players }

-- The players after a join: a known id leaves them as they are.
unfoldable pub join_players : String → String → List Player → List Player
unfolding any
join_players id name players =
    if any (λ p. p.id == id) players
    then players
    else players ++ record { id = id; name = name; is_alive = true; is_ai = false } ∷ []

unfoldable pub leave_players : String → List Player → List Player
unfolding filter
leave_players id = filter (λ p. not (p.id == id))

-- `reason === 'vote'`
abbrev pub is_vote : Option String → Bool
is_vote none = false
is_vote (some r) = r == "vote"

unfoldable pub kill_overlay_item : String → Option String → Option String → OverlayItem
kill_overlay_item player_name role reason = record {
  kind = if is_vote reason then elim_overlay else kill_overlay;
  title = player_name;
  eyebrow = some (if is_vote reason then "투표 결과" else "밤 사이에");
  stamp =
      some (append (or_else role "알 수 없음") (append " " (if is_vote reason then "탈락" else "사망")));
  hint = none;
  role_pills = none;
  theme = if is_vote reason then elim_theme else killed;
  duration_ms = 2500;
}

unfoldable pub kill_text : Option String → String
kill_text role =
    if truthy role
    then append "플레이어가 사망했습니다. (역할: " (append (or_else role "") ")")
    else "플레이어가 사망했습니다."

unfoldable pub chat_message : String → String → String → String → Bool → ChatMessage
chat_message msg_id sender_id sender_name text mafia_only = record {
  id = msg_id;
  player_id = sender_id;
  player_name = some sender_name;
  message = text;
  mafia_only = mafia_only;
  is_system = none;
}
