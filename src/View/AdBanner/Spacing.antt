-- ===== src/View/AdBanner/Spacing.antt =====
-- How often a slot is reported.
use Prim.Native.Nat.{ℕ, ◌-◌, ◌≤◌}
use Prim.Native.String.{String}
use mathlib.Core.Path.{◌≡◌, refl, subst}
use mathlib.Core.Logic.{inl, inr}
use mathlib.Core.Bool.{not, ◌&&◌}
use mathlib.Core.List.{List, [], ◌∷◌}
use native.Mathlib.Omega.{arith}
use ai_with_mafia.Common.Tests.{leb, or_else, Bool-cases}
use ai_with_mafia.Common.Assoc.{lookup, lookup-insert}
use ai_with_mafia.Api.{slot_text}
use ai_with_mafia.View.AdBanner.{
  Sighting, Impressions, no_impressions, log_impression, sight, sight_all,
}

-- Each report comes at least thirty seconds after the last one of its slot, or after the start of
-- the clock.
abbrev pub IsSpaced : List (String × ℕ) → Type 0
IsSpaced [] = Unit {0}
IsSpaced ((slot, now) ∷ earlier) =
    (30000 ≤ now - or_else (lookup slot earlier) 0) × IsSpaced earlier

-- The table of the module has the time of each slot's last report.
record IsRecorded (s : Impressions) : Type 0 where
  last : (slot : String) → lookup slot s.last_logged ≡ lookup slot s.logged
  spaced : IsSpaced s.logged

log_impression-IsRecorded :
    (v : Sighting) (s : Impressions)
    → IsRecorded s
    → 30000 ≤ v.now - or_else (lookup (slot_text v.slot) s.last_logged) 0
    → IsRecorded (log_impression v s)
unfolding lookup
log_impression-IsRecorded v s h late = record {
  last = λ slot. rw (lookup-insert (slot_text v.slot) slot v.now s.last_logged, h.last slot) refl;
  spaced = (subst (λ o. 30000 ≤ v.now - or_else o 0) (h.last (slot_text v.slot)) late, h.spaced);
}

sight-IsRecorded : (v : Sighting) (s : Impressions) → IsRecorded s → IsRecorded (sight v s)
unfolding sight
sight-IsRecorded v s h =
    let last = or_else (lookup (slot_text v.slot) s.last_logged) 0 in
    elim (Bool-cases (v.is_half && not v.seen && leb 30000 (v.now - last))) [
      | inl due ↦ rw due (log_impression-IsRecorded v s h (ground (arith, due)))
      | inr early ↦ rw early h
    ]

sight_all-IsRecorded :
    (vs : List Sighting) (s : Impressions) → IsRecorded s → IsRecorded (sight_all vs s)
unfolding sight_all
sight_all-IsRecorded [] s h = h
sight_all-IsRecorded (v ∷ vs) s h = sight_all-IsRecorded vs (sight v s) (sight-IsRecorded v s h)

-- Whatever the observers of all banners see, and whatever `seen` their callbacks hold: each
-- impression of a slot is reported at least thirty seconds after the last one of that slot.
pub sight_all-IsSpaced : (vs : List Sighting) → IsSpaced (sight_all vs no_impressions).logged
unfolding no_impressions
sight_all-IsSpaced vs =
    (sight_all-IsRecorded vs no_impressions (record { last = λ slot. refl; spaced = tt })).spaced
