-- ===== src/View/AdBanner.antt =====
-- frontend/src/components/AdBanner.tsx: which impressions are reported, and what the banner shows.
pub mod Spacing
use Prim.Native.Nat.{ℕ, ◌-◌}
use Prim.Native.String.{String, ◌++◌ as append}
use mathlib.Core.Bool.{Bool, true, not, ◌&&◌, ◌||◌}
use mathlib.Core.Option.{Option, none}
use mathlib.Core.List.{List, [], ◌∷◌}
use ai_with_mafia.Common.Tests.{if◌then◌else◌, leb, or_else}
use ai_with_mafia.Common.Text.{truthy}
use ai_with_mafia.View.Dom.{Node, empty, words, element, style, prop}
use ai_with_mafia.Common.Assoc.{lookup, insert}
use ai_with_mafia.Api.{
  Call, log_ad_impression, Slot, lobby_slot, waiting_slot, result_slot, slot_text,
}

-- One entry that the observer of a banner is given: the banner's props, whether half of it is
-- visible, the `seen` that the callback closes over, and the time.
pub record Sighting : Type 0 where
  pub slot : Slot
  pub game_id : Option String
  pub is_half : Bool
  pub seen : Bool
  pub now : ℕ

-- The module's `lastLogged`, and what was reported so far, the newest first: each slot with its
-- time, and the calls.
pub record Impressions : Type 0 where
  pub last_logged : List (String × ℕ)
  pub logged : List (String × ℕ)
  pub calls : List Call

unfoldable pub no_impressions : Impressions
no_impressions = record { last_logged = []; logged = []; calls = [] }

abbrev pub impression_cooldown_ms : ℕ
impression_cooldown_ms = 30000

abbrev pub log_impression : Sighting → Impressions → Impressions
log_impression v s = record {
  last_logged = insert (slot_text v.slot) v.now s.last_logged;
  logged = (slot_text v.slot, v.now) ∷ s.logged;
  calls = log_ad_impression v.slot v.game_id ∷ s.calls;
}

-- The body of the observer's loop. A clock that goes back gives no report: the difference is then
-- negative in the source, and zero here.
unfoldable pub sight : Sighting → Impressions → Impressions
unfolding lookup insert
sight v s =
    let last = or_else (lookup (slot_text v.slot) s.last_logged) 0 in
    if v.is_half && not v.seen && leb impression_cooldown_ms (v.now - last)
    then log_impression v s
    else s

unfoldable pub sight_all : List Sighting → Impressions → Impressions
unfolding sight
sight_all [] s = s
sight_all (v ∷ vs) s = sight_all vs (sight v s)

-- The variables of the build that the banner reads.
pub record AdEnv : Type 0 where
  pub client : Option String
  pub slot_waiting : Option String
  pub slot_result : Option String
  pub dev : Bool

-- `slotEnvKey`
abbrev pub slot_env_key : AdEnv → Slot → Option String
slot_env_key env lobby_slot = none
slot_env_key env waiting_slot = env.slot_waiting
slot_env_key env result_slot = env.slot_result

-- A banner without an advertisement: a placeholder while developing, and otherwise the space alone.
abbrev pub ad_placeholder : AdEnv → Slot → Node
ad_placeholder env slot =
    if env.dev
    then element "div" (style "border" "1px dashed #4A4438" ∷ style "color" "#786F62" ∷ [])
        (words (append "[AD:" (append (slot_text slot) "]")))
    else element "div" [] empty

unfoldable pub ad_banner : AdEnv → Slot → Node
ad_banner env slot =
    if not (truthy env.client) || not (truthy (slot_env_key env slot))
    then ad_placeholder env slot
    else element "div" [] (
        element "ins"
          (prop "data-ad-client" (or_else env.client "")
            ∷ prop "data-ad-slot" (or_else (slot_env_key env slot) "")
            ∷ prop "data-ad-format" "auto"
            ∷ prop "data-full-width-responsive" "true"
            ∷ [])
          empty)
