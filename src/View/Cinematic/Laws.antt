-- ===== src/View/Cinematic/Laws.antt =====
-- How long the overlays stay.
use Prim.Native.Nat.{ℕ, zero, suc}
use mathlib.Core.Path.{◌≡◌, refl, ap, ◌∙◌}
use mathlib.Core.Bool.{true, false}
use mathlib.Core.Option.{none}
use mathlib.Core.List.{List, [], ◌∷◌}
use ai_with_mafia.Common.Lists.{length}
use ai_with_mafia.Store.State.{OverlayItem}
use ai_with_mafia.View.Cinematic.{same_item, mounted, rendered, timer_fires, fires_times}

-- No two overlays that follow one another look the same to the effect.
abbrev pub IsVaried : List OverlayItem → Type 0
IsVaried [] = Unit {0}
IsVaried (a ∷ []) = Unit {0}
IsVaried (a ∷ b ∷ items) = (same_item a b ≡ false) × IsVaried (b ∷ items)

timer_fires-IsVaried :
    (a : OverlayItem) (items : List OverlayItem)
    → IsVaried (a ∷ items)
    → (timer_fires (mounted (a ∷ items)) ≡ mounted items) × IsVaried items
unfolding timer_fires rendered mounted
timer_fires-IsVaried a [] v = (refl, v)
timer_fires-IsVaried a (b ∷ items) v = (rw (v.0) refl, v.1)

-- If no two overlays in a row look the same to the effect, the timeouts take them away one after
-- the other: after as many as there are overlays, the queue is empty and no timeout is pending.
pub fires_times-mounted :
    (items : List OverlayItem)
    → IsVaried items
    → fires_times (length items) (mounted items) ≡ mounted []
unfolding fires_times
fires_times-mounted [] v = refl
fires_times-mounted (a ∷ items) v =
    let next = timer_fires-IsVaried a items v in
    ap (fires_times (length items)) (next.0) ∙ fires_times-mounted items (next.1)

fires_times_idle :
    (n : ℕ) (items : List OverlayItem)
    → fires_times n (record { queue = items; timer = none })
      ≡ record { queue = items; timer = none }
unfolding fires_times timer_fires
fires_times_idle zero items = refl
fires_times_idle (suc n) items = fires_times_idle n items

timer_fires_repeated :
    (a b : OverlayItem) (items : List OverlayItem)
    → same_item a b ≡ true
    → timer_fires (mounted (a ∷ b ∷ items)) ≡ record { queue = b ∷ items; timer = none }
unfolding timer_fires rendered mounted
timer_fires_repeated a b items same = rw same refl

-- If the second overlay looks to the effect like the first, the first timeout brings it up with no
-- timeout of its own, and none that fires later takes it away.
pub repeated_overlay_stays :
    (a b : OverlayItem) (items : List OverlayItem) (n : ℕ)
    → same_item a b ≡ true
    → (fires_times (suc n) (mounted (a ∷ b ∷ items))).queue ≡ b ∷ items
unfolding fires_times
repeated_overlay_stays a b items n same =
    ap (λ s. s.queue)
      (ap (fires_times n) (timer_fires_repeated a b items same) ∙ fires_times_idle n (b ∷ items))
