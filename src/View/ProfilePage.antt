-- ===== src/View/ProfilePage.antt =====
-- What frontend/src/pages/ProfilePage.tsx shows. The browser's and the JSON values' parts are
-- parameters: how a rate is printed, what a date says, and the first letter of a name in upper case.
pub mod Offers
use Prim.Native.Nat.{ℕ, ◌-◌}
use Prim.Native.String.{String, ◌++◌ as append}
use mathlib.Core.Bool.{Bool, not, ◌&&◌}
use mathlib.Core.Option.{Option, none, some}
use mathlib.Core.List.{List, [], ◌∷◌}
use text.Mathlib.Text.{◌==◌}
use ai_with_mafia.Common.Tests.{if◌then◌else◌, leb, ltb, map_option, or_else}
use ai_with_mafia.Common.Lists.{filter}
use ai_with_mafia.Common.Text.{decimal, truthy, not_empty}
use ai_with_mafia.Profile.{
  RoleStats, MyStatsResponse, MyGameRecord, ProfileState, format_date, format_duration,
}
use ai_with_mafia.View.Dom.{
  Node, empty, words, element, all_of, when, each, on_click, on_enter, on_escape, disabled, style,
  prop, go_lobby, start_edit_click, save_click, cancel_edit_click, sign_out_click,
}

-- `ROLE_LABEL[role] ?? role`
abbrev pub role_name : String → String
role_name role =
    if role == "mafia"
    then "마피아"
    else if role == "citizen"
    then "시민"
    else if role == "police"
    then "경찰"
    else role

-- `games - wins`, which is negative if there are more wins than games.
abbrev pub difference : ℕ → ℕ → String
difference games wins =
    if leb wins games then decimal (games - wins) else append "-" (decimal (wins - games))

abbrev pub cell : String → Node
cell text = element "td" [] (words text)

abbrev pub heading : String → Node
heading text = element "th" [] (words text)

abbrev pub caption : String → Node
caption text = element "span" [] (words text)

abbrev pub table_head : List String → Node
table_head names = element "thead" [] (element "tr" [] (each heading names))

abbrev pub card : String → String → Node
card label value = element "div" [] (all_of (caption label ∷ caption value ∷ []))

-- The picture of the user, or the first letter of the name.
abbrev pub avatar : (String → String) → Option String → String → Node
avatar initial url display_name =
    if truthy url
    then element "img" (prop "src" (or_else url "") ∷ []) empty
    else element "div" [] (words (if not_empty display_name then initial display_name else "?"))

unfoldable pub name_line : String → Node
name_line display_name = element "div" [] (
    all_of (
      caption (if not_empty display_name then display_name else "—")
      ∷ element "button" (on_click start_edit_click ∷ prop "title" "닉네임 수정" ∷ [])
          (element "svg" [] empty)
      ∷ []))

module _ {ℓ} {Rate : Type ℓ} where
  -- The name while it is edited.
  unfoldable pub name_form : ProfileState Rate → Node
  name_form s = element "div" [] (
      all_of (
        element "div" [] (
          all_of (
            element "input"
              (prop "value" s.edit_value
                ∷ on_enter save_click
                ∷ on_escape cancel_edit_click
                ∷ prop "maxLength" "50"
                ∷ [])
              empty
            ∷ element "button"
                (on_click save_click
                  ∷ disabled s.saving
                  ∷ style "cursor" (if s.saving then "not-allowed" else "pointer")
                  ∷ style "opacity" (if s.saving then "0.6" else "1")
                  ∷ [])
                (words (if s.saving then "저장 중..." else "저장"))
            ∷ element "button" (on_click cancel_edit_click ∷ []) (words "취소")
            ∷ []))
        ∷ when (not_empty s.edit_error) (caption s.edit_error)
        ∷ []))

  unfoldable pub profile_header :
      (String → String) → Option String → Option String → String → ProfileState Rate → Node
  profile_header initial url email display_name s = element "section" [] (
      all_of (
        avatar initial url display_name
        ∷ element "div" [] (
            all_of (
              (if s.editing then name_form s else name_line display_name)
              ∷ caption (or_else email "")
              ∷ []))
        ∷ []))

  -- A number of the statistics, which is a dash while they load and zero if there are none.
  abbrev pub figure : (MyStatsResponse Rate → ℕ) → ProfileState Rate → String
  figure f s = if s.stats_loading then "—" else decimal (or_else (map_option f s.stats) 0)

  -- `roleEntries`: the roles that were played.
  abbrev pub role_entries : Option (MyStatsResponse Rate) → List (String × RoleStats Rate)
  role_entries none = []
  role_entries (some m) = filter (λ e. ltb 0 e.1.games) m.by_role

  -- The parameters: the rate zero, and `(rate * 100).toFixed(1)`.
  module _ (nought : Rate) (percent : Rate → String) where
    unfoldable pub stats_cards : ProfileState Rate → Node
    stats_cards s =
        let rate = or_else (map_option (λ (m : MyStatsResponse Rate). m.win_rate) s.stats) nought in
        element "section" [] (
          all_of (
            caption "전적"
            ∷ element "div" [] (
                all_of (
                  card "총 게임" (figure (λ m. m.total_games) s)
                  ∷ card "승" (figure (λ m. m.wins) s)
                  ∷ card "패" (figure (λ m. m.losses) s)
                  ∷ card "승률" (if s.stats_loading then "—" else append (percent rate) "%")
                  ∷ []))
            ∷ []))

    abbrev pub role_line : String × RoleStats Rate → Node
    role_line (role, rs) = element "tr" [] (
        all_of (
          cell (role_name role)
          ∷ cell (decimal rs.games)
          ∷ cell (decimal rs.wins)
          ∷ cell (difference rs.games rs.wins)
          ∷ cell (append (percent rs.win_rate) "%")
          ∷ []))

    abbrev pub role_table : List (String × RoleStats Rate) → Node
    role_table [] = empty
    role_table (e ∷ entries) = element "section" [] (
        all_of (
          caption "역할별 통계"
          ∷ element "table" [] (
              all_of (
                table_head ("역할" ∷ "게임" ∷ "승" ∷ "패" ∷ "승률" ∷ [])
                ∷ element "tbody" [] (each role_line (e ∷ entries))
                ∷ []))
          ∷ []))

-- One game of the list, with what `new Date(iso)` says.
abbrev pub game_line : (String → Option (ℕ × ℕ)) → MyGameRecord → Node
game_line utc g = element "tr" [] (
    all_of (
      cell (format_date (utc g.played_at))
      ∷ cell (role_name g.role)
      ∷ element "td" (style "color" (if g.won then "#C4963A" else "#8C1F1F") ∷ [])
          (words (if g.won then "승" else "패"))
      ∷ element "td" (style "color" (if g.survived then "#ECE7DE" else "#786F62") ∷ [])
          (words (if g.survived then "O" else "X"))
      ∷ cell (append (decimal g.round_count) "R")
      ∷ cell (format_duration g.duration_sec)
      ∷ []))

abbrev pub game_table : (String → Option (ℕ × ℕ)) → List MyGameRecord → Node
game_table utc [] = element "p" [] (words "게임 기록 없음")
game_table utc (g ∷ games) = element "div" [] (
    element "table" [] (
      all_of (
        table_head ("날짜" ∷ "역할" ∷ "결과" ∷ "생존" ∷ "라운드" ∷ "게임시간" ∷ [])
        ∷ element "tbody" [] (each (game_line utc) (g ∷ games))
        ∷ [])))

abbrev pub recent_games : Bool → (String → Option (ℕ × ℕ)) → List MyGameRecord → Node
recent_games loading utc games = element "section" [] (
    all_of (
      caption "최근 게임"
      ∷ (if loading then element "div" [] (words "LOADING...") else game_table utc games)
      ∷ []))

abbrev pub fetch_error_line : Bool → Node
fetch_error_line failed = when failed (element "div" [] (words "통계를 불러오지 못했습니다. 잠시 후 다시 시도해주세요."))

abbrev pub bottom_buttons : Node
bottom_buttons = element "div" [] (
    all_of (
      element "button" (on_click go_lobby ∷ []) (words "로비로 돌아가기")
      ∷ element "button" (on_click sign_out_click ∷ []) (words "로그아웃")
      ∷ []))

module _ {ℓ} {Rate : Type ℓ} (nought : Rate) (percent : Rate → String)
    (utc : String → Option (ℕ × ℕ)) (initial : String → String) where
  unfoldable pub profile_page : Option String → Option String → String → ProfileState Rate → Node
  profile_page url email display_name s = element "div" [] (
      all_of (
        element "nav" [] (
          all_of (
            element "button" (on_click go_lobby ∷ []) (words "AI Mafia")
            ∷ element "div" [] (words "PROFILE")
            ∷ []))
        ∷ element "main" [] (
            all_of (
              profile_header initial url email display_name s
              ∷ stats_cards nought percent s
              ∷ fetch_error_line s.fetch_error
              ∷ when (not s.stats_loading) (role_table nought percent (role_entries s.stats))
              ∷ recent_games s.stats_loading utc s.games
              ∷ bottom_buttons
              ∷ []))
        ∷ []))
