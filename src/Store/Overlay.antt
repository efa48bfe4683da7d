-- ===== src/Store/Overlay.antt =====
-- The overlay queue of gameStore.ts.
use Prim.Native.Nat.{ℕ}
use Prim.Native.String.{◌++◌ as append}
use mathlib.Core.Option.{Option, none, some}
use mathlib.Core.List.{List, [], ◌∷◌, ◌++◌}
use ai_with_mafia.Common.Tests.{map_option}
use ai_with_mafia.Common.Lists.{drop_one}
use ai_with_mafia.Common.Text.{decimal}
use ai_with_mafia.Types.{
  Phase, day_discussion, day_vote, night, Phase.result as result_phase, Role, mafia, police,
  citizen,
}
use ai_with_mafia.Store.State.{
  OverlayItem, phase_overlay, day, vote_theme, night_theme, RolePill, GameStore,
}

-- The three pills of the night, by the viewer's own role.
abbrev pub night_pills : Role → List RolePill
night_pills mafia =
    record { label = "처치 대상 선택"; role = mafia }
    ∷ record { label = "조사 중"; role = police }
    ∷ record { label = "대기"; role = citizen }
    ∷ []
night_pills police =
    record { label = "움직임"; role = mafia }
    ∷ record { label = "조사 가능"; role = police }
    ∷ record { label = "대기"; role = citizen }
    ∷ []
night_pills _ =
    record { label = "움직임"; role = mafia }
    ∷ record { label = "조사 중"; role = police }
    ∷ record { label = "대기"; role = citizen }
    ∷ []

-- `buildPhaseOverlay`
unfoldable pub build_phase_overlay : Phase → Option ℕ → Role → Option OverlayItem
unfolding decimal
build_phase_overlay day_discussion round my_role = some (record {
  kind = phase_overlay;
  title = "낮 — 토론";
  eyebrow = map_option (λ r. append "Round " (decimal r)) round;
  stamp = none;
  hint = some "의심스러운 플레이어를 찾아내세요";
  role_pills = none;
  theme = day;
  duration_ms = 1800;
})
build_phase_overlay day_vote round my_role = some (record {
  kind = phase_overlay;
  title = "투표";
  eyebrow = map_option (λ r. append "Round " (decimal r)) round;
  stamp = none;
  hint = some "처형할 플레이어에 투표하세요";
  role_pills = none;
  theme = vote_theme;
  duration_ms = 1800;
})
build_phase_overlay night round my_role = some (record {
  kind = phase_overlay;
  title = "밤";
  eyebrow = map_option (λ r. append "Round " (decimal r)) round;
  stamp = none;
  hint = none;
  role_pills = some (night_pills my_role);
  theme = night_theme;
  duration_ms = 1800;
})
build_phase_overlay result_phase round my_role = none

-- `pushOverlay`
unfoldable pub push_overlay : OverlayItem → GameStore → GameStore
push_overlay item s = record s { overlay_queue = s.overlay_queue ++ item ∷ [] }

-- `shiftOverlay`
unfoldable pub shift_overlay : GameStore → GameStore
shift_overlay s = record s { overlay_queue = drop_one s.overlay_queue }
