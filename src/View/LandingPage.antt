-- ===== src/View/LandingPage.antt =====
-- What frontend/src/pages/LandingPage.tsx shows. How the browser writes a number with the
-- separators of its language is a parameter.
use Prim.Native.Nat.{ℕ, ◌+◌, ◌*◌, ◌/◌, ◌%◌}
use Prim.Native.String.{String, ◌++◌ as append}
use mathlib.Core.Bool.{Bool}
use mathlib.Core.Option.{Option}
use mathlib.Core.List.{List, [], ◌∷◌}
use ai_with_mafia.Common.Tests.{if◌then◌else◌, eqb, ltb, map_option}
use ai_with_mafia.Common.Text.{decimal, includes}
use ai_with_mafia.Landing.{FeedEntry, LandingState, feed_window}
use ai_with_mafia.Landing.Content.{StepText, AiCap, RoleText, step_texts, ai_caps, role_texts}
use ai_with_mafia.View.Dom.{
  Node, Attr, empty, words, element, all_of, each_from, on_click, style, cta_click,
}

-- `fadeUp`
unfoldable pub fade_up : Bool → ℕ → List Attr
unfolding decimal
fade_up visible delay =
    let after = append "500ms " (append (decimal delay) "ms ease-out") in
    style "opacity" (if visible then "1" else "0")
    ∷ style "transform" (if visible then "translateY(0)" else "translateY(12px)")
    ∷ style "transition" (append "opacity " (append after (append ", transform " after)))
    ∷ []

abbrev pub line : String → Node
line text = element "span" [] (words text)

abbrev pub paragraph : String → Node
paragraph text = element "p" [] (words text)

abbrev pub cta_button : String → Node
cta_button text = element "button" (on_click cta_click ∷ []) (words text)

-- The rule below or beside an item, which the last one does not have.
abbrev pub rule_unless_last : ℕ → ℕ → String
rule_unless_last i last = if ltb i last then "1px solid #2E2820" else "none"

abbrev pub corners : ℕ → ℕ → String → String → String
corners i last first_corners last_corners =
    if eqb i 0 then first_corners else if eqb i last then last_corners else "0"

abbrev pub nav : Node
nav = element "nav" [] (all_of (line "AI Mafia" ∷ cta_button "게임 하기" ∷ []))

abbrev pub stat_cell : ℕ → String × String → Node
stat_cell i (num, label) =
    element "div" (style "borderRight" (rule_unless_last i 2) ∷ [])
      (all_of (line num ∷ line label ∷ []))

-- `(rounds / 10).toFixed(1)` of a whole number.
unfoldable pub tenths : ℕ → String
unfolding decimal
tenths n = append (decimal (n / 10)) (append "." (decimal (n % 10)))

-- The parameter: `toLocaleString`.
module _ (to_locale_string : ℕ → String) where
  abbrev pub stat_texts : LandingState → List (String × String)
  stat_texts s =
      (to_locale_string s.games.value, "게임 완료")
      ∷ (append (decimal s.win_rate.value) "%", "AI 승률")
      ∷ (tenths s.rounds.value, "평균 라운드")
      ∷ []

  unfoldable pub hero : LandingState → Node
  hero s = element "section" [] (
      all_of (
        element "div" (fade_up s.mounted 0) (words "세션 진행 중 · AI 마피아 플랫폼")
        ∷ element "h1" (fade_up s.mounted 120)
            (all_of (words "이 자리에 앉은 누군가는," ∷ words " " ∷ element "em" [] (words "인간이 아니다.") ∷ []))
        ∷ element "p" (fade_up s.mounted 240)
            (words "여섯 명의 플레이어. 하나의 진실. 알고리즘과 본능, 어느 쪽이 더 설득력 있는가?")
        ∷ element "div" (fade_up s.mounted 360)
            (all_of (cta_button "방 입장하기" ∷ cta_button "코드로 참가" ∷ []))
        ∷ element "div" (fade_up s.mounted 480) (each_from 0 stat_cell (stat_texts s))
        ∷ []))

abbrev pub role_row : Bool → ℕ → RoleText → Node
role_row visible i role =
    element "div"
      (style "borderBottom" (rule_unless_last i 2)
        ∷ style "borderRadius" (corners i 2 "4px 4px 0 0" "0 0 4px 4px")
        ∷ fade_up visible (i * 100))
      (all_of (
        element "div" [] (line role.num)
        ∷ element "div" [] (
            all_of (
              element "span" (style "color" role.color ∷ []) (words role.label)
              ∷ line role.en
              ∷ []))
        ∷ element "div" [] (paragraph role.desc)
        ∷ []))

unfoldable pub roles_section : Bool → Node
roles_section visible = element "section" [] (
    all_of (
      element "div" (fade_up visible 0) (words "역할 파일")
      ∷ element "div" [] (each_from 0 (role_row visible) role_texts)
      ∷ element "p" (fade_up visible 400) (words "AI 플레이어는 게임 종료 후 공개됩니다.")
      ∷ []))

abbrev pub step_card : Bool → ℕ → StepText → Node
step_card visible i t =
    element "div"
      (style "borderRight" (rule_unless_last i 2)
        ∷ style "borderRadius" (corners i 2 "4px 0 0 4px" "0 4px 4px 0")
        ∷ fade_up visible (i * 100))
      (all_of (line t.num ∷ element "h3" [] (words t.title) ∷ paragraph t.desc ∷ []))

unfoldable pub steps_section : Bool → Node
steps_section visible = element "section" [] (
    all_of (
      element "div" (fade_up visible 0) (words "진행 방식")
      ∷ element "div" [] (each_from 0 (step_card visible) step_texts)
      ∷ []))

abbrev pub row_opacity : ℕ → String
row_opacity i =
    if eqb i 0 then "1" else if eqb i 1 then "0.9" else if eqb i 2 then "0.75" else "0.5"

-- One row of the feed: a win of the mafia is told by its winner's name.
abbrev pub feed_row : ℕ → FeedEntry → Node
feed_row i entry =
    let is_mafia_win = includes entry.winner "마피아" in
    element "div"
      (style "borderBottom" (rule_unless_last i 3)
        ∷ style "borderRadius" (corners i 3 "4px 4px 0 0" "0 0 4px 4px")
        ∷ style "opacity" (row_opacity i)
        ∷ [])
      (all_of (
        element "div" [] (
          element "span"
            (style "color" (if is_mafia_win then "#C45A5A" else "#C4963A")
              ∷ style "background"
                  (if is_mafia_win then "rgba(140,31,31,0.20)" else "rgba(196,150,58,0.15)")
              ∷ [])
            (words (append entry.winner " 승리")))
        ∷ element "div" [] (line (append (decimal entry.round) "R"))
        ∷ element "div" [] (line entry.players)
        ∷ element "div" [] (line (append entry.ago " 전"))
        ∷ []))

unfoldable pub feed_section : Bool → List FeedEntry → Node
feed_section visible rows = element "section" [] (
    all_of (
      element "div" (fade_up visible 0) (words "실시간 게임 기록")
      ∷ element "div" (fade_up visible 100) (each_from 0 feed_row rows)
      ∷ []))

abbrev pub ai_card : Bool → ℕ → AiCap → Node
ai_card visible i cap =
    element "div"
      (style "borderRadius" (corners i 2 "4px 4px 0 0" "0 0 4px 4px")
        ∷ style "borderBottom" (rule_unless_last i 2)
        ∷ fade_up visible (150 + i * 80))
      (all_of
        (element "div" [] (all_of (line cap.label ∷ line cap.en ∷ [])) ∷ paragraph cap.desc ∷ []))

abbrev pub ai_statement : Bool → Node
ai_statement visible = element "div" [] (
    all_of (
      element "h2" [] (
        all_of (
          words "AI는 당신과"
          ∷ words " "
          ∷ element "em" [] (words "동일한 방식으로")
          ∷ words " "
          ∷ words "생각한다."
          ∷ []))
      ∷ paragraph
          "단순한 규칙 기반 봇이 아니다. 대화를 분석하고, 전략을 계산하고, 심리적으로 압박한다. 마피아 역할에서는 무고한 척 연기하고, 시민 역할에서는 진짜 단서를 추적한다."
      ∷ element "div" [] (
          all_of (
            line "탐지율 (인간 기준)"
            ∷ element "div" [] (
                all_of (
                  element "div" []
                    (element "div" (style "width" (if visible then "42%" else "0%") ∷ []) empty)
                  ∷ line "42%"
                  ∷ []))
            ∷ line "플레이어 중 42%만이 AI를 제때 간파했다"
            ∷ []))
      ∷ []))

unfoldable pub ai_section : Bool → Node
ai_section visible = element "section" [] (
    all_of (
      element "div" (fade_up visible 0) (words "AI 플레이어")
      ∷ element "div" (fade_up visible 80) (
          all_of
            (ai_statement visible ∷ element "div" [] (each_from 0 (ai_card visible) ai_caps) ∷ []))
      ∷ []))

unfoldable pub cta_section : Bool → Node
cta_section visible = element "section" [] (
    all_of (
      element "div" (fade_up visible 0) (
        all_of (
          element "div" [] (words "지금 시작")
          ∷ element "h2" [] (all_of (element "em" [] (words "진짜") ∷ words "를 가려낼 수 있겠는가?" ∷ []))
          ∷ paragraph "방을 만들고, 플레이어를 초대하거나, 공개 테이블에 합류하라. 게임은 이미 시작됐다."
          ∷ cta_button "게임 시작하기"
          ∷ []))
      ∷ element "div" [] (words "AI MAFIA · AI 플레이어는 게임 종료 후 공개됩니다")
      ∷ []))

-- The page, unless an entry of the feed is undefined: then it throws while it renders.
unfoldable pub landing_page : (ℕ → String) → LandingState → Option Node
unfolding hero roles_section steps_section feed_section ai_section cta_section feed_window
landing_page to_locale_string s =
    map_option
      (λ rows. element "div" [] (
        all_of (
          nav
          ∷ hero to_locale_string s
          ∷ roles_section s.roles_in_view
          ∷ steps_section s.steps_in_view
          ∷ feed_section s.feed_in_view rows
          ∷ ai_section s.ai_in_view
          ∷ cta_section s.cta_in_view
          ∷ [])))
      (feed_window s.feed_offset)
