-- ===== src/Api/Laws.antt =====
-- What the requests carry and how their failures come out.
use Prim.Native.String.{String, ◌++◌ as append}
use mathlib.Core.Path.{◌≡◌, refl, ap}
use mathlib.Core.Logic.{inl, inr}
use mathlib.Core.Bool.{Bool, true, false, ◌&&◌}
use mathlib.Core.Option.{Option, none, some}
use mathlib.Core.List.{[], ◌∷◌}
use native.Mathlib.Omega.{arith}
use ai_with_mafia.Common.Tests.{eqb, if◌then◌else◌, is_some, or_else, Bool-cases}
use ai_with_mafia.Common.Text.{truthy}
use ai_with_mafia.Common.Assoc.{lookup}
use ai_with_mafia.Api.{
  auth_header, spread, Parsed, json, not_json, settle_value, Response, response, RequestError,
  Settled, thrown, is_ok, error_of, failure, settle, Call, list_rooms, options_of, send_call,
}

headers_of :
    (token : Option String) (b : Bool)
    → let hs =
        spread
          (spread (if b then ("Content-Type", "application/json") ∷ [] else []) (auth_header token))
          [] in
      (lookup "Authorization" hs
        ≡ (if truthy token then some (append "Bearer " (or_else token "")) else none))
      × (lookup "Content-Type" hs ≡ (if b then some "application/json" else none))
unfolding lookup spread auth_header
headers_of token true = elim (Bool-cases (truthy token)) [
  | inl there ↦ rw there (refl, refl)
  | inr gone ↦ rw gone (refl, refl)
]
headers_of token false = elim (Bool-cases (truthy token)) [
  | inl there ↦ rw there (refl, refl)
  | inr gone ↦ rw gone (refl, refl)
]

-- No call of api.ts brings headers of its own.
options_of-headers : (call : Call) → (options_of call).headers ≡ []
unfolding options_of
options_of-headers list_rooms = refl
options_of-headers _ = refl

-- Every call carries the bearer token exactly when the session has one, and declares JSON exactly
-- when it has a body.
pub send_call_headers :
    (token : Option String) (call : Call)
    → (lookup "Authorization" (send_call token call).headers
        ≡ (if truthy token then some (append "Bearer " (or_else token "")) else none))
      × (lookup "Content-Type" (send_call token call).headers
          ≡ (if is_some (send_call token call).body then some "application/json" else none))
unfolding send_call
send_call_headers token call =
    rw (options_of-headers call) (headers_of token (is_some (options_of call).body))

settle_value_room_id {ℓ} :
    {A : Type ℓ} (v : Parsed A) (e : RequestError) → settle_value v ≡ thrown e → e.room_id ≡ none
settle_value_room_id (json a) e h = cc
settle_value_room_id (not_json m) e h = ground arith

settle_ok {ℓ} :
    {A : Type ℓ} (r : Response A) (e : RequestError)
    → is_ok r.status ≡ true
    → settle (response r) ≡ thrown e
    → e.room_id ≡ none
unfolding settle
settle_ok r e good h = elim (Bool-cases (eqb r.status 204)) [
  | inl empty ↦ ground arith
  | inr full ↦ settle_value_room_id r.value e (rw (good, full) at h)
]

settle_bad {ℓ} :
    {A : Type ℓ} (r : Response A)
    → is_ok r.status ≡ false
    → settle (response r) ≡ thrown (failure r.status (error_of r.error_body))
unfolding settle
settle_bad r bad = rw bad refl

eq_of_thrown {ℓ} :
    {A : Type ℓ} (x : Settled A) {d e : RequestError} → x ≡ thrown d → x ≡ thrown e → d ≡ e
eq_of_thrown x h k = cc

-- Of a response, the exception that `request` throws names a room exactly when the status is 409
-- and the body names one; then it is that room.
pub settle_room_id {ℓ} :
    {A : Type ℓ} (r : Response A) (e : RequestError)
    → settle (response r) ≡ thrown e
    → e.room_id ≡ (
        if eqb r.status 409 && truthy (error_of r.error_body).room_id
        then (error_of r.error_body).room_id
        else none)
unfolding failure
settle_room_id r e h = elim (Bool-cases (is_ok r.status)) [
  | inl good ↦
      let other : eqb r.status 409 ≡ false = ground arith in rw other (settle_ok r e good h)
  | inr bad ↦
      ap (λ (d : RequestError). d.room_id) (eq_of_thrown (settle (response r)) h (settle_bad r bad))
]
