-- ===== src/Tests/Pages.antt =====
-- The requests, the lobby and the auth store.
use mathlib.Core.Path.{◌≡◌, refl}
use mathlib.Core.Logic.{inl}
use mathlib.Core.Bool.{true}
use mathlib.Core.Option.{none, some}
use mathlib.Core.List.{[], ◌∷◌}
use ai_with_mafia.Common.Lists.{find}
use ai_with_mafia.Common.Assoc.{lookup}
use ai_with_mafia.Api.{not_json, Response, response, RequestError, settle, start_game, send_call}
use ai_with_mafia.Api.Laws.{send_call_headers}
use ai_with_mafia.Lobby.{
  JoinResponse, LobbyState, initial_lobby, handle_join_room, handle_create_room,
  handle_join_by_code, join_settled, create_settled, code_settled,
}
use ai_with_mafia.Lobby.Laws.{conflict_returns}
use ai_with_mafia.Auth.{
  Session, me, failed, AuthClient, initializes, session, me_replies, signed_in, signs_out,
  signed_in_replies, initial_auth, auth_step, auth_run,
}
use ai_with_mafia.Auth.Laws.{
  IsSignedOut, failed_initialize_loads, signed_out_returns, sign_out_final,
}
use ai_with_mafia.Common.Text.{trim}
use ai_with_mafia.Tests.Data.{table}

abbrev conflict : Response JoinResponse
conflict = record {
  status = 409;
  value = not_json "";
  error_body = some (record { error = some "already in a room"; room_id = some "r9" });
}

abbrev already : RequestError
already = record { message = "already in a room"; room_id = some "r9" }

send_call_headers_example :
    (lookup "Authorization" (send_call (some "t") (start_game "r1")).headers ≡ some "Bearer t")
    × (lookup "Content-Type" (send_call (some "t") (start_game "r1")).headers ≡ none)
unfolding send_call
send_call_headers_example = send_call_headers (some "t") (start_game "r1")

-- A page with a room to join, a name, a code, and an error in each form.
abbrev filled_in : LobbyState
filled_in = record initial_lobby {
  joining_room = some table;
  join_error = "old";
  create_name = "Table";
  create_error = "old";
  code_input = "ABCDEF";
  code_error = "old";
}

conflict_returns_example :
    let reply = settle (response conflict) in
    (join_settled true reply (handle_join_room filled_in).0
      ≡ (record filled_in { join_error = "" }, some "/rooms/r9"))
    × (create_settled true reply (handle_create_room filled_in).0
        ≡ (record filled_in { create_error = "" }, some "/rooms/r9"))
    × (code_settled true reply (handle_join_by_code filled_in).0
        ≡ (record filled_in { code_error = "" }, some "/rooms/r9"))
unfolding trim initial_lobby
conflict_returns_example =
    conflict_returns true conflict filled_in table "r9" refl refl refl refl refl refl

abbrev ann_session : Session
ann_session = record { user = "ann"; access_token = "t" }

failed_initialize_loads_example :
    (auth_run (initializes ∷ signed_in 1 ann_session ∷ []) (
      auth_step
        (me_replies failed)
        (auth_run (initializes ∷ session (some ann_session) ∷ []) initial_auth))).store.loading
    ≡ true
unfolding auth_run initial_auth
failed_initialize_loads_example =
    failed_initialize_loads ann_session (initializes ∷ session (some ann_session) ∷ [])
      (initializes ∷ signed_in 1 ann_session ∷ []) refl

abbrev signing_in : AuthClient
signing_in = auth_run (initializes ∷ session none ∷ signed_in 1 ann_session ∷ []) initial_auth

signed_out_returns_example :
    (auth_step (signed_in_replies 1 (me "ann" "Ann")) (auth_step signs_out signing_in)).store.user
    ≡ some "ann"
unfolding auth_run initial_auth find
signed_out_returns_example = signed_out_returns 1 1 ann_session "ann" "Ann" signing_in refl

abbrev signed : AuthClient
signed =
    auth_run (initializes ∷ session (some ann_session) ∷ me_replies (me "ann" "Ann") ∷ [])
      initial_auth

sign_out_final_example : IsSignedOut (auth_run (initializes ∷ []) (auth_step signs_out signed))
unfolding auth_run initial_auth
sign_out_final_example = sign_out_final signed (initializes ∷ []) refl (inl refl) refl (refl, tt)
