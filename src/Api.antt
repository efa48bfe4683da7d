-- ===== src/Api.antt =====
-- frontend/src/api.ts: the requests to the server and what `request` makes of the replies.
pub mod Laws
use Prim.Native.Nat.{ℕ}
use Prim.Native.String.{String, ◌++◌ as append}
use mathlib.Core.Bool.{Bool, ◌&&◌}
use mathlib.Core.Option.{Option, none, some}
use mathlib.Core.List.{List, [], ◌∷◌}
use ai_with_mafia.Common.Tests.{leb, eqb, if◌then◌else◌, is_some, or_else}
use ai_with_mafia.Common.Text.{decimal, truthy}
use ai_with_mafia.Common.Assoc.{insert}
use ai_with_mafia.Types.{Visibility, public, private}

-- The values in the bodies that are sent. `JSON.stringify` leaves out a field that is undefined.
pub data JsonValue : Type 0 where
  text : String → JsonValue
  number : ℕ → JsonValue

-- The options of a request: what `fetch` is given besides the headers that `request` adds.
pub record Options : Type 0 where
  pub method : Option String
  pub body : Option (List (String × JsonValue))
  pub headers : List (String × String)

pub record HttpRequest : Type 0 where
  pub path : String
  pub method : Option String
  pub body : Option (List (String × JsonValue))
  pub headers : List (String × String)

-- `getAuthHeader`, from the access token of the session, if there is one.
unfoldable pub auth_header : Option String → List (String × String)
auth_header token =
    if truthy token then ("Authorization", append "Bearer " (or_else token "")) ∷ [] else []

-- `{ ...a, ...b }`
unfoldable pub spread : List (String × String) → List (String × String) → List (String × String)
unfolding insert
spread a [] = a
spread a ((k, v) ∷ b) = spread (insert k v a) b

-- The call of `fetch` in `request`.
unfoldable pub build_request : Option String → String → Options → HttpRequest
unfolding auth_header spread
build_request token path options = record {
  path = append "/api" path;
  method = options.method;
  body = options.body;
  headers =
      spread
        (spread (if is_some options.body then ("Content-Type", "application/json") ∷ [] else [])
          (auth_header token))
        options.headers;
}

-- The fields that `request` reads in the body of a failed reply.
pub record ErrorBody : Type 0 where
  pub error : Option String
  pub room_id : Option String

-- What `res.json()` comes to: a value, or an exception with its message.
pub data Parsed {ℓ} (A : Type ℓ) : Type ℓ where
  json : A → Parsed A
  not_json : String → Parsed A

pub record Response {ℓ} (A : Type ℓ) : Type ℓ where
  pub status : ℕ
  pub value : Parsed A
  pub error_body : Option ErrorBody

-- What `fetch` comes to: a response, or an exception with its message.
pub data Reply {ℓ} (A : Type ℓ) : Type ℓ where
  response : Response A → Reply A
  unreachable : String → Reply A

-- The exception of `request`, with the id of the room that the user is in already.
pub record RequestError : Type 0 where
  pub message : String
  pub room_id : Option String

pub data Settled {ℓ} (A : Type ℓ) : Type ℓ where
  fulfilled : A → Settled A
  fulfilled_empty : Settled A
  thrown : RequestError → Settled A

-- `res.ok`
abbrev pub is_ok : ℕ → Bool
is_ok status = leb 200 status && leb status 299

-- A body that is no JSON counts as `{}`.
abbrev pub error_of : Option ErrorBody → ErrorBody
error_of none = record { error = none; room_id = none }
error_of (some b) = b

unfoldable pub failure : ℕ → ErrorBody → RequestError
unfolding decimal
failure status body = record {
  message = or_else body.error (append "HTTP " (decimal status));
  room_id = if eqb status 409 && truthy body.room_id then body.room_id else none;
}

module _ {ℓ} {A : Type ℓ} where
  abbrev pub settle_value : Parsed A → Settled A
  settle_value (json a) = fulfilled a
  settle_value (not_json m) = thrown (record { message = m; room_id = none })

  -- `request` behind the call of `fetch`.
  unfoldable pub settle : Reply A → Settled A
  unfolding failure
  settle (unreachable m) = thrown (record { message = m; room_id = none })
  settle (response r) =
      if is_ok r.status
      then if eqb r.status 204 then fulfilled_empty else settle_value r.value
      else thrown (failure r.status (error_of r.error_body))

  -- `.catch(() => {})` of `logAdImpression`
  unfoldable pub fail_open : Settled A → Settled A
  fail_open (thrown e) = fulfilled_empty
  fail_open s = s

abbrev pub visibility_text : Visibility → String
visibility_text public = "public"
visibility_text private = "private"

abbrev get : Options
get = record { method = none; body = none; headers = [] }

abbrev post : Option (List (String × JsonValue)) → Options
post body = record { method = some "POST"; body = body; headers = [] }

-- Where an advertisement stands.
pub data Slot : Type 0 where
  lobby_slot waiting_slot result_slot : Slot

abbrev pub slot_text : Slot → String
slot_text lobby_slot = "lobby"
slot_text waiting_slot = "waiting"
slot_text result_slot = "result"

abbrev optional : String → Option String → List (String × JsonValue)
optional k none = []
optional k (some v) = (k, text v) ∷ []

-- The functions of api.ts, each as the path and the options that it hands to `request`.
pub data Call : Type 0 where
  list_rooms : Call
  create_room : String → Visibility → Option ℕ → Call
  join_room : String → Call
  join_by_code : String → Call
  quick_match : Call
  log_ad_impression : Slot → Option String → Call
  start_game : String → Call
  restart_game : String → Call
  update_me : String → Call
  get_my_stats : Call
  get_my_games : Option ℕ → Call

unfoldable pub path_of : Call → String
unfolding decimal
path_of list_rooms = "/rooms"
path_of (create_room name visibility max_humans) = "/rooms"
path_of (join_room room_id) = append "/rooms/" (append room_id "/join")
path_of (join_by_code code) = "/rooms/join/code"
path_of quick_match = "/rooms/quick"
path_of (log_ad_impression slot game_id) = "/metrics/ad"
path_of (start_game room_id) = append "/rooms/" (append room_id "/start")
path_of (restart_game room_id) = append "/rooms/" (append room_id "/restart")
path_of (update_me name) = "/me"
path_of get_my_stats = "/me/stats"
path_of (get_my_games limit) = append "/me/games?limit=" (decimal (or_else limit 20))

unfoldable pub options_of : Call → Options
options_of list_rooms = get
options_of (create_room name visibility max_humans) = post (
    some (
      ("name", text name)
      ∷ ("visibility", text (visibility_text visibility))
      ∷ ("max_humans", number (or_else max_humans 6))
      ∷ []))
options_of (join_room room_id) = post (some [])
options_of (join_by_code code) = post (some (("code", text code) ∷ []))
options_of quick_match = post none
options_of (log_ad_impression slot game_id) =
    post (some (("slot", text (slot_text slot)) ∷ optional "game_id" game_id))
options_of (start_game room_id) = post none
options_of (restart_game room_id) = post none
options_of (update_me name) = record {
  method = some "PUT";
  body = some (("display_name", text name) ∷ []);
  headers = [];
}
options_of get_my_stats = get
options_of (get_my_games limit) = get

unfoldable pub send_call : Option String → Call → HttpRequest
unfolding build_request path_of options_of
send_call token call = build_request token (path_of call) (options_of call)
