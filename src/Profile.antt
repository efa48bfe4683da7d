-- ===== src/Profile.antt =====
-- frontend/src/pages/ProfilePage.tsx: the state of the page, its handlers and its formats.
pub mod Names
pub mod Formats
use Prim.Native.Nat.{ℕ, ◌+◌, ◌/◌, max}
use Prim.Native.String.{String, ◌++◌ as append}
use mathlib.Core.Bool.{Bool, true, false, not, ◌&&◌, ◌||◌}
use mathlib.Core.Option.{Option, none, some}
use mathlib.Core.List.{List, [], ◌∷◌, ◌++◌}
use ai_with_mafia.Common.Tests.{if◌then◌else◌, eqb, ltb, is_some}
use ai_with_mafia.Common.Text.{decimal, pad_two, trim, utf16_length}
use ai_with_mafia.Auth.{AuthStore, sign_out}
use ai_with_mafia.Api.{
  Settled, fulfilled, fulfilled_empty, thrown, Call, update_me, get_my_stats, get_my_games,
}

-- `RoleStats`, `MyStatsResponse` and `MyGameRecord` of api.ts, over the type of the rates.
pub record RoleStats {ℓ} (Rate : Type ℓ) : Type ℓ where
  pub games : ℕ
  pub wins : ℕ
  pub win_rate : Rate

pub record MyStatsResponse {ℓ} (Rate : Type ℓ) : Type ℓ where
  pub total_games : ℕ
  pub wins : ℕ
  pub losses : ℕ
  pub win_rate : Rate
  pub by_role : List (String × RoleStats Rate)

pub record MyGameRecord : Type 0 where
  pub game_id : String
  pub played_at : String
  pub role : String
  pub survived : Bool
  pub won : Bool
  pub round_count : ℕ
  pub duration_sec : ℕ

-- What `updateMe` answers.
pub record Updated : Type 0 where
  pub player_id : String
  pub display_name : String

pub record ProfileState {ℓ} (Rate : Type ℓ) : Type ℓ where
  pub stats : Option (MyStatsResponse Rate)
  pub games : List MyGameRecord
  pub stats_loading : Bool
  pub fetch_error : Bool
  pub editing : Bool
  pub edit_value : String
  pub edit_error : String
  pub saving : Bool

unfoldable pub initial_profile {ℓ} : {Rate : Type ℓ} → ProfileState Rate
initial_profile = record {
  stats = none;
  games = [];
  stats_loading = true;
  fetch_error = false;
  editing = false;
  edit_value = "";
  edit_error = "";
  saving = false;
}

-- The first effect: where it navigates.
unfoldable pub redirect : AuthStore → Option String
redirect a = if not a.loading && not (is_some a.user) then some "/" else none

-- What `Promise.all` of the two requests comes to. The server answers both with a body.
pub data Fetched {ℓ} (Rate : Type ℓ) : Type ℓ where
  both : MyStatsResponse Rate → List MyGameRecord → Fetched Rate
  rejected : Fetched Rate

-- `formatDate`, from what `new Date(iso)` says of the month, from zero, and of the day in UTC; an
-- invalid date has none, and its numbers are printed as `NaN`.
unfoldable pub format_date : Option (ℕ × ℕ) → String
unfolding pad_two
format_date none = "NaN-NaN"
format_date (some (month, day)) = append (pad_two (month + 1)) (append "-" (pad_two day))

-- `Math.max(1, Math.round(sec / 60))`: halves are rounded up.
unfoldable pub minutes : ℕ → ℕ
minutes sec = max 1 ((sec + 30) / 60)

-- `formatDuration`
unfoldable pub format_duration : ℕ → String
unfolding decimal minutes
format_duration sec = if eqb sec 0 then "0분" else append (decimal (minutes sec)) "분"

module _ {ℓ} {Rate : Type ℓ} where
  -- The second effect, up to its `await`: it does nothing without a user.
  unfoldable pub fetch_profile : AuthStore → ProfileState Rate → ProfileState Rate × List Call
  fetch_profile a s =
      if is_some a.user
      then (
        record s { stats_loading = true; fetch_error = false },
        get_my_stats ∷ get_my_games none ∷ [],
      )
      else (s, [])

  unfoldable pub profile_fetched : Fetched Rate → ProfileState Rate → ProfileState Rate
  profile_fetched (both stats games) s = record s {
    stats = some stats;
    games = games;
    stats_loading = false;
  }
  profile_fetched rejected s = record s { fetch_error = true; stats_loading = false }

  unfoldable pub start_edit : String → ProfileState Rate → ProfileState Rate
  start_edit display_name s = record s {
    edit_value = display_name;
    edit_error = "";
    editing = true;
  }

  unfoldable pub cancel_edit : ProfileState Rate → ProfileState Rate
  cancel_edit s = record s { editing = false; edit_error = "" }

  unfoldable pub type_nickname : String → ProfileState Rate → ProfileState Rate
  type_nickname text s = record s { edit_value = text }

  -- `saveEdit`, up to its `await`.
  unfoldable pub save_edit : ProfileState Rate → ProfileState Rate × Option Call
  unfolding trim utf16_length
  save_edit s =
      let size = utf16_length (trim s.edit_value) in
      if eqb size 0 || ltb 50 size
      then (record s { edit_error = "닉네임은 1~50자여야 합니다." }, none)
      else (record s { saving = true; edit_error = "" }, some (update_me (trim s.edit_value)))

  -- Its rest, with what it does to the store of the sign-in. Reading a field of an empty reply throws.
  unfoldable pub save_settled :
      Settled Updated → ProfileState Rate × AuthStore → ProfileState Rate × AuthStore
  save_settled (fulfilled u) (s, a) =
      (record s { editing = false; saving = false }, record a { display_name = u.display_name })
  save_settled fulfilled_empty (s, a) = (record s { edit_error = "저장에 실패했습니다."; saving = false }, a)
  save_settled (thrown e) (s, a) = (record s { edit_error = "저장에 실패했습니다."; saving = false }, a)

-- `handleSignOut` behind its `await`: the store, and where it navigates.
unfoldable pub handle_sign_out : AuthStore → AuthStore × String
unfolding sign_out
handle_sign_out a = (sign_out a, "/")

-- What happens to the page: the user edits, and the replies to the saves come in.
pub data ProfileInput : Type 0 where
  starts_edit cancels_edit saves : ProfileInput
  types : String → ProfileInput
  save_replies : Settled Updated → ProfileInput

-- The page, the store of the sign-in, and the calls made so far.
pub record ProfileClient {ℓ} (Rate : Type ℓ) : Type ℓ where
  pub state : ProfileState Rate
  pub auth : AuthStore
  pub calls : List Call

abbrev pub to_calls : Option Call → List Call
to_calls none = []
to_calls (some call) = call ∷ []

module _ {ℓ} {Rate : Type ℓ} where
  unfoldable pub profile_step : ProfileInput → ProfileClient Rate → ProfileClient Rate
  unfolding start_edit cancel_edit type_nickname save_edit save_settled
  profile_step starts_edit c = record c { state = start_edit c.auth.display_name c.state }
  profile_step cancels_edit c = record c { state = cancel_edit c.state }
  profile_step (types text) c = record c { state = type_nickname text c.state }
  profile_step saves c = record c {
    state = (save_edit c.state).0;
    calls = c.calls ++ to_calls (save_edit c.state).1;
  }
  profile_step (save_replies r) c = record c {
    state = (save_settled r (c.state, c.auth)).0;
    auth = (save_settled r (c.state, c.auth)).1;
  }

  unfoldable pub profile_run : List ProfileInput → ProfileClient Rate → ProfileClient Rate
  unfolding profile_step
  profile_run [] c = c
  profile_run (i ∷ is) c = profile_run is (profile_step i c)
