-- ===== src/Auth.antt =====
-- frontend/src/store/authStore.ts: the signed-in user.
pub mod Laws
use Prim.Native.Nat.{ℕ}
use Prim.Native.String.{String}
use mathlib.Core.Bool.{Bool, true, false}
use mathlib.Core.Option.{Option, none, some}
use mathlib.Core.List.{List, [], ◌∷◌, ◌++◌}
use ai_with_mafia.Common.Tests.{if◌then◌else◌, eqb}
use ai_with_mafia.Common.Lists.{find, filter}

-- A session of Supabase that has a user, by the user's id.
pub record Session : Type 0 where
  pub user : String
  pub access_token : String

pub record AuthStore : Type 0 where
  pub user : Option String
  pub player_id : String
  pub display_name : String
  pub loading : Bool

-- What the request `/api/me` comes to: `res.ok` with the two fields, another status, or an
-- exception of `fetch` or of `res.json()`.
pub data MeReply : Type 0 where
  me : String → String → MeReply
  refused : MeReply
  failed : MeReply

-- Where the body of `initialize` stands.
pub data Progress : Type 0 where
  not_started awaiting_session stopped subscribed : Progress
  awaiting_me : Session → Progress

-- The store, the module's variable `initialized`, where `initialize` stands, and the sign-in
-- handlers that wait for their reply, by a fresh number.
pub record AuthClient : Type 0 where
  pub store : AuthStore
  pub initialized : Bool
  pub progress : Progress
  pub pending : List (ℕ × Session)

unfoldable pub initial_auth : AuthClient
initial_auth = record {
  store = record { user = none; player_id = ""; display_name = ""; loading = true };
  initialized = false;
  progress = not_started;
  pending = [];
}

abbrev pub with_auth : (AuthStore → AuthStore) → AuthClient → AuthClient
with_auth f c = record c { store = f c.store }

-- `initialize`, up to the session.
unfoldable pub initialize : AuthClient → AuthClient
initialize c =
    if c.initialized then c else record c { initialized = true; progress = awaiting_session }

-- `getSession` has answered: a session asks for the player, none goes on to the subscription.
unfoldable pub session_loaded : Option Session → AuthClient → AuthClient
session_loaded (some s) c = record c { progress = awaiting_me s }
session_loaded none c = record (with_auth (λ t. record t { loading = false }) c) {
  progress = subscribed;
}

-- The reply to `initialize`. An exception ends it before the subscription.
unfoldable pub initial_me : Session → MeReply → AuthClient → AuthClient
initial_me s (me player_id display_name) c =
    record (with_auth
      (λ t. record t {
        user = some s.user;
        player_id = player_id;
        display_name = display_name;
        loading = false;
      })
      c) { progress = subscribed }
initial_me s refused c =
    record (with_auth (λ t. record t { user = some s.user; loading = false }) c) {
      progress = subscribed;
    }
initial_me s failed c = record c { progress = stopped }

-- The reply to the handler of `SIGNED_IN`.
unfoldable pub signed_in_me : Session → MeReply → AuthStore → AuthStore
signed_in_me s (me player_id display_name) t = record t {
  user = some s.user;
  player_id = player_id;
  display_name = display_name;
  loading = false;
}
signed_in_me s refused t = record t {
  user = some s.user;
  player_id = "";
  display_name = "";
  loading = false;
}
signed_in_me s failed t = t

-- `SIGNED_OUT`, and the end of `signOut`.
unfoldable pub sign_out : AuthStore → AuthStore
sign_out t = record t { user = none; player_id = ""; display_name = "" }

-- `getAccessToken`, by the session that Supabase answers with.
unfoldable pub get_access_token : Option Session → String
get_access_token none = ""
get_access_token (some s) = s.access_token

-- What happens to the store: its actions, and what Supabase and the server answer.
pub data AuthInput : Type 0 where
  initializes : AuthInput
  session : Option Session → AuthInput
  me_replies : MeReply → AuthInput
  signed_in : ℕ → Session → AuthInput
  signed_in_replies : ℕ → MeReply → AuthInput
  signed_out : AuthInput
  signs_out : AuthInput

abbrev pub on_session : Progress → Option Session → AuthClient → AuthClient
on_session awaiting_session s c = session_loaded s c
on_session _ s c = c

abbrev pub on_me : Progress → MeReply → AuthClient → AuthClient
on_me (awaiting_me s) r c = initial_me s r c
on_me _ r c = c

abbrev pub is_subscribed : Progress → Bool
is_subscribed subscribed = true
is_subscribed _ = false

abbrev pub on_signed_in_reply : Option (ℕ × Session) → MeReply → AuthClient → AuthClient
on_signed_in_reply none r c = c
on_signed_in_reply (some (n, s)) r c = record (with_auth (signed_in_me s r) c) {
  pending = filter (λ e. if eqb e.0 n then false else true) c.pending;
}

-- The events of Supabase are heard from the subscription on.
unfoldable pub auth_step : AuthInput → AuthClient → AuthClient
unfolding initialize session_loaded initial_me signed_in_me sign_out find filter
auth_step initializes c = initialize c
auth_step (session s) c = on_session c.progress s c
auth_step (me_replies r) c = on_me c.progress r c
auth_step (signed_in n s) c =
    if is_subscribed c.progress then record c { pending = c.pending ++ (n, s) ∷ [] } else c
auth_step (signed_in_replies n r) c = on_signed_in_reply (find (λ e. eqb e.0 n) c.pending) r c
auth_step signed_out c = if is_subscribed c.progress then with_auth sign_out c else c
auth_step signs_out c = with_auth sign_out c

unfoldable pub auth_run : List AuthInput → AuthClient → AuthClient
unfolding auth_step
auth_run [] c = c
auth_run (i ∷ is) c = auth_run is (auth_step i c)
