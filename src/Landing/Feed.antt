-- ===== src/Landing/Feed.antt =====
-- The rows of the feed.
use Prim.Native.Nat.{ℕ, zero, suc, ◌+◌, ◌%◌, ◌<◌}
use mathlib.Core.Path.{◌≡◌, refl, sym, ap, subst, ◌∙◌}
use mathlib.Core.Bool.{Bool, true, false}
use mathlib.Core.Option.{Option, none, some}
use mathlib.Core.List.{List, [], ◌∷◌, ◌++◌}
use native.Mathlib.Omega.{arith}
use ai_with_mafia.Common.Tests.{if◌then◌else◌, Bool-cases}
use mathlib.Core.Logic.{inl, inr}
use ai_with_mafia.Landing.{
  FeedEntry, feed_entries, feed_window, feed_rows, feed_entry, initial_landing, LandingInput,
  mounts, observes, feed_ticks, paints, stats_part, roles_part, steps_part, feed_part, ai_part,
  cta_part, Part, show_part, LandingState, landing_step, landing_run,
}

-- The first entry goes to the end.
unfoldable pub turn : List FeedEntry → List FeedEntry
turn [] = []
turn (e ∷ es) = es ++ e ∷ []

-- Whether the feed has been seen, once an observer has reported about a part.
abbrev pub sees : Bool → Part → Bool → Bool
sees true feed_part seen = true
sees true _ seen = seen
sees false part seen = seen

-- The feed as a ring of entries that turns with each tick, from when the feed is first seen.
unfoldable pub ring : Bool → List FeedEntry → List LandingInput → List FeedEntry
unfolding turn
ring seen es [] = es
ring seen es (observes part shown ∷ is) = ring (sees shown part seen) es is
ring seen es (feed_ticks ∷ is) = ring seen (if seen then turn es else es) is
ring seen es (_ ∷ is) = ring seen es is

-- The four entries in front.
abbrev pub front : List FeedEntry → Option (List FeedEntry)
front (a ∷ b ∷ c ∷ d ∷ es) = some (a ∷ b ∷ c ∷ d ∷ [])
front _ = none

unfoldable turns : ℕ → List FeedEntry
unfolding turn
turns zero = feed_entries
turns (suc n) = turn (turns n)

-- The ring of a state is the one that starts with the entry at the offset.
record IsRing (es : List FeedEntry) (offset : ℕ) : Type 0 where
  in_range : offset < 7
  turned : es ≡ turns offset

turns-next : (offset : ℕ) → offset < 7 → turn (turns offset) ≡ turns ((offset + 1) % 7)
unfolding turns
turns-next zero h = refl
turns-next (suc zero) h = refl
turns-next (suc (suc zero)) h = refl
turns-next (suc (suc (suc zero))) h = refl
turns-next (suc (suc (suc (suc zero)))) h = refl
turns-next (suc (suc (suc (suc (suc zero))))) h = refl
turns-next (suc (suc (suc (suc (suc (suc zero)))))) h = refl
turns-next (suc (suc (suc (suc (suc (suc (suc n))))))) h = absurd (omega arith)

feed_window-turns : (offset : ℕ) → offset < 7 → feed_window offset ≡ front (turns offset)
unfolding feed_window feed_rows feed_entry turns
feed_window-turns zero h = refl
feed_window-turns (suc zero) h = refl
feed_window-turns (suc (suc zero)) h = refl
feed_window-turns (suc (suc (suc zero))) h = refl
feed_window-turns (suc (suc (suc (suc zero)))) h = refl
feed_window-turns (suc (suc (suc (suc (suc zero))))) h = refl
feed_window-turns (suc (suc (suc (suc (suc (suc zero)))))) h = refl
feed_window-turns (suc (suc (suc (suc (suc (suc (suc n))))))) h = absurd (omega arith)

turn-IsRing :
    (es : List FeedEntry) (offset : ℕ) → IsRing es offset → IsRing (turn es) ((offset + 1) % 7)
turn-IsRing es offset r = record {
  in_range = let h = r.in_range in omega arith;
  turned = ap turn r.turned ∙ turns-next offset r.in_range;
}

show_part-feed :
    (part : Part) (seen : Bool) (s : LandingState)
    → s.feed_in_view ≡ seen
    → ((show_part part s).feed_in_view ≡ sees true part seen)
      × ((show_part part s).feed_offset ≡ s.feed_offset)
show_part-feed stats_part seen s h = elim (Bool-cases s.stats_visible) [
  | inl shown ↦ rw shown (h, refl)
  | inr hidden ↦ rw hidden (h, refl)
]
show_part-feed roles_part seen s h = (h, refl)
show_part-feed steps_part seen s h = (h, refl)
show_part-feed feed_part seen s h = (refl, refl)
show_part-feed ai_part seen s h = (h, refl)
show_part-feed cta_part seen s h = (h, refl)

abbrev rolled : LandingState → Bool → LandingState
rolled s seen = if seen then record s { feed_offset = (s.feed_offset + 1) % 7 } else s

-- After the inputs the feed shows the front of the ring.
abbrev FeedShows : List LandingInput → List FeedEntry → LandingState → Type 0
FeedShows is es s = feed_window (landing_run is s).feed_offset ≡ front es

run-feed_window :
    (is : List LandingInput) (seen : Bool) (es : List FeedEntry) (s : LandingState)
    → s.feed_in_view ≡ seen
    → IsRing es s.feed_offset
    → FeedShows is (ring seen es is) s
unfolding landing_run landing_step ring
run-feed_window [] seen es s h r =
    feed_window-turns s.feed_offset r.in_range ∙ ap front (sym r.turned)
run-feed_window (mounts ∷ is) seen es s h r = run-feed_window is seen es _ h r
run-feed_window (observes part true ∷ is) seen es s h r =
    let (now, same) = show_part-feed part seen s h in
    run-feed_window is _ es (show_part part s) now (subst (IsRing es) (sym same) r)
run-feed_window (observes part false ∷ is) seen es s h r = run-feed_window is seen es s h r
run-feed_window (feed_ticks ∷ is) true es s h r =
    subst (FeedShows is (ring true (turn es) is)) (ap (rolled s) (sym h))
      (run-feed_window is true (turn es) (rolled s true) h (turn-IsRing es s.feed_offset r))
run-feed_window (feed_ticks ∷ is) false es s h r =
    subst (FeedShows is (ring false es is)) (ap (rolled s) (sym h))
      (run-feed_window is false es s h r)
run-feed_window (paints ts ∷ is) seen es s h r = run-feed_window is seen es _ h r

-- Whatever happens to the page: the feed shows the first four entries of a ring that holds them all,
-- in their order, and that each tick turns by one entry once the feed has come into view, and none
-- before.
pub feed_window-landing_run :
    (is : List LandingInput)
    → feed_window (landing_run is initial_landing).feed_offset ≡ front (ring false feed_entries is)
unfolding initial_landing turns
feed_window-landing_run is =
    run-feed_window is false feed_entries initial_landing refl
      (record { in_range = omega arith; turned = refl })
