-- ===== src/Landing/Content.antt =====
-- The texts of frontend/src/pages/LandingPage.tsx that its lists show.
use Prim.Native.String.{String}
use mathlib.Core.List.{List, [], ◌∷◌}

pub record StepText : Type 0 where
  pub num : String
  pub title : String
  pub desc : String

-- `STEPS`
abbrev pub step_texts : List StepText
step_texts =
    record { num = "01"; title = "방에 입장하다"; desc = "공개 방에 참가하거나 코드를 받아 비밀 테이블에 합류한다. 최대 6인, 익명으로." }
    ∷ record {
      num = "02";
      title = "역할을 배정받다";
      desc = "당신은 마피아인가, 시민인가, 경찰인가. 그리고 당신 옆의 누군가는 AI다. 아무도 알려주지 않는다.";
    }
    ∷ record {
      num = "03";
      title = "추론하고 살아남다";
      desc = "낮에는 토론하고 투표한다. 밤에는 일이 벌어진다. 거짓말을 꿰뚫어라, 또는 완벽하게 연기하라.";
    }
    ∷ []

pub record AiCap : Type 0 where
  pub label : String
  pub en : String
  pub desc : String

-- `AI_CAPS`
abbrev pub ai_caps : List AiCap
ai_caps =
    record {
      label = "언어 패턴 모방";
      en = "Language Mimicry";
      desc = "AI는 인간의 타이핑 패턴, 말 속도, 감정 표현까지 분석해 동일하게 재현한다. 오타도, 망설임도, 의심스러운 완벽함도 없다.";
    }
    ∷ record {
      label = "전략적 기만";
      en = "Strategic Deception";
      desc = "마피아 역할을 맡으면 AI는 무고한 플레이어를 지목해 의심을 돌리는 전략을 실시간으로 계산한다. 감정이 아니라 확률로.";
    }
    ∷ record {
      label = "역할 추론";
      en = "Role Inference";
      desc = "시민이나 경찰 역할에서도 AI는 대화 흐름을 분석해 누가 마피아일 가능성이 높은지 계속 업데이트한다. 당신보다 빠를 수 있다.";
    }
    ∷ []

-- The colour stands for `T.danger`, `T.textMuted` and `T.police`.
pub record RoleText : Type 0 where
  pub num : String
  pub label : String
  pub en : String
  pub desc : String
  pub color : String

-- `ROLES`
abbrev pub role_texts : List RoleText
role_texts =
    record {
      num = "01";
      label = "마피아";
      en = "Mafia";
      desc = "낮에는 무고한 시민인 척 토론에 참여하고, 밤에는 팀원들과 합의해 시민 한 명을 제거한다. 끝까지 들키지 않고 살아남는 것이 목표다.";
      color = "#8C1F1F";
    }
    ∷ record {
      num = "02";
      label = "시민";
      en = "Citizen";
      desc = "토론과 투표만이 무기다. 누가 거짓말을 하는지 논리로 추적하고, 마피아를 찾아 제거하라. 진실을 밝혀내는 것이 유일한 수단이다.";
      color = "#786F62";
    }
    ∷ record {
      num = "03";
      label = "경찰";
      en = "Detective";
      desc = "매일 밤 한 명을 조사해 그가 마피아인지 확인할 수 있다. 당신이 얻는 정보는 팀의 생사를 가를 수 있다. 언제 공개하고 언제 숨길지 판단하라.";
      color = "#3D7FA8";
    }
    ∷ []
