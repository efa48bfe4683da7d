-- ===== src/Landing.antt =====
-- frontend/src/pages/LandingPage.tsx: its state, its counters, its feed and where it leads.
pub mod Counters
pub mod Bounds
pub mod Feed
pub mod Glow
pub mod Content
use Prim.Native.Nat.{ℕ, zero, suc, ◌+◌, ◌-◌, ◌*◌, ◌/◌, ◌%◌}
use Prim.Native.String.{String}
use mathlib.Core.Bool.{Bool, true, false, not, ◌&&◌}
use mathlib.Core.Option.{Option, none, some}
use mathlib.Core.List.{List, [], ◌∷◌}
use ai_with_mafia.Common.Tests.{if◌then◌else◌, ltb, is_some, or_else}
use ai_with_mafia.Common.Lists.{get_elem?}
use ai_with_mafia.Auth.{AuthStore}

-- The effect that leaves the page: where it navigates.
unfoldable pub leave_landing : AuthStore → Option String
leave_landing a = if not a.loading && is_some a.user then some "/lobby" else none

-- What a click on one of the page's buttons comes to.
pub data Cta : Type 0 where
  navigates : String → Cta
  signs_in_with_google : Cta

-- `handleCTA`
unfoldable pub handle_cta : AuthStore → Cta
handle_cta a = if is_some a.user then navigates "/lobby" else signs_in_with_google

-- One effect of `useCounter`: the stamp of its first frame, the number that is shown, and whether
-- a frame is requested.
pub record Counter : Type 0 where
  pub start : Option ℕ
  pub value : ℕ
  pub waiting : Bool

abbrev pub initial_counter : Counter
initial_counter = record { start = none; value = 0; waiting = false }

-- The effect, once `started` is set.
abbrev pub start_counter : Counter → Counter
start_counter c = record c { start = none; waiting = true }

-- `Math.round(eased * target)`, as an exact fraction of whole time stamps: what is left of
-- `duration` is zero from its end on, and `1 - progress` is that part of it.
unfoldable pub eased_value : ℕ → ℕ → ℕ → ℕ
eased_value target duration elapsed =
    let left = duration - elapsed in
    let whole = duration * duration * duration in
    (2 * (target * (whole - left * left * left)) + whole) / (2 * whole)

-- `step`, at the frame of the stamp `ts`.
unfoldable pub counter_frame : ℕ → ℕ → ℕ → Counter → Counter
unfolding eased_value
counter_frame target duration ts c =
    let start = or_else c.start ts in
    if c.waiting
    then record {
      start = some start;
      value = eased_value target duration (ts - start);
      waiting = ltb (ts - start) duration;
    }
    else c

unfoldable pub counter_frames : ℕ → ℕ → List ℕ → Counter → Counter
unfolding counter_frame
counter_frames target duration [] c = c
counter_frames target duration (ts ∷ stamps) c =
    counter_frames target duration stamps (counter_frame target duration ts c)

pub record FeedEntry : Type 0 where
  pub winner : String
  pub round : ℕ
  pub ago : String
  pub players : String

abbrev pub feed_entries : List FeedEntry
feed_entries =
    record { winner = "시민"; round = 3; ago = "2분"; players = "Alex, Ji-ho, Sam +3명" }
    ∷ record { winner = "AI 마피아"; round = 4; ago = "7분"; players = "Morgan, Riley, Quinn +3명" }
    ∷ record { winner = "시민"; round = 2; ago = "14분"; players = "Dana, Yuna, Chris +3명" }
    ∷ record { winner = "AI 마피아"; round = 5; ago = "21분"; players = "Jordan, Park, Lee +3명" }
    ∷ record { winner = "시민"; round = 3; ago = "33분"; players = "Kim, Max, Seo +3명" }
    ∷ record { winner = "AI 마피아"; round = 3; ago = "45분"; players = "Alex, Ji-ho, Sam +3명" }
    ∷ record { winner = "시민"; round = 4; ago = "58분"; players = "Choi, Rin, Tom +3명" }
    ∷ []

-- `FEED_ENTRIES[(feedOffset + i) % FEED_ENTRIES.length]`, which an index out of range would leave
-- undefined.
unfoldable pub feed_entry : ℕ → ℕ → Option FeedEntry
feed_entry offset i = get_elem? feed_entries ((offset + i) % 7)

abbrev row_before : Option FeedEntry → Option (List FeedEntry) → Option (List FeedEntry)
row_before none rows = none
row_before (some e) none = none
row_before (some e) (some rows) = some (e ∷ rows)

-- The rows from `i` on; an entry that is undefined throws, when its winner is read.
unfoldable pub feed_rows : ℕ → ℕ → ℕ → Option (List FeedEntry)
unfolding feed_entry
feed_rows zero i offset = some []
feed_rows (suc n) i offset = row_before (feed_entry offset i) (feed_rows n (suc i) offset)

-- `Array.from({ length: 4 }, …)`
unfoldable pub feed_window : ℕ → Option (List FeedEntry)
unfolding feed_rows
feed_window offset = feed_rows 4 0 offset

-- The parts of the page that an observer waits for.
pub data Part : Type 0 where
  stats_part roles_part steps_part feed_part ai_part cta_part : Part

pub record LandingState : Type 0 where
  pub mounted : Bool
  pub stats_visible : Bool
  pub roles_in_view : Bool
  pub steps_in_view : Bool
  pub feed_in_view : Bool
  pub ai_in_view : Bool
  pub cta_in_view : Bool
  pub feed_offset : ℕ
  pub games : Counter
  pub win_rate : Counter
  pub rounds : Counter

unfoldable pub initial_landing : LandingState
initial_landing = record {
  mounted = false;
  stats_visible = false;
  roles_in_view = false;
  steps_in_view = false;
  feed_in_view = false;
  ai_in_view = false;
  cta_in_view = false;
  feed_offset = 0;
  games = initial_counter;
  win_rate = initial_counter;
  rounds = initial_counter;
}

-- What happens to the page: its timeout, what an observer reports, the interval of the feed, and
-- the frames of the browser with their stamps, which do not fall.
pub data LandingInput : Type 0 where
  mounts : LandingInput
  observes : Part → Bool → LandingInput
  feed_ticks : LandingInput
  paints : ℕ → LandingInput

-- The statistics come into view: the observer is disconnected, and the three counters start.
abbrev pub show_stats : LandingState → LandingState
show_stats s = if s.stats_visible then s else record s {
  stats_visible = true;
  games = start_counter s.games;
  win_rate = start_counter s.win_rate;
  rounds = start_counter s.rounds;
}

abbrev pub show_part : Part → LandingState → LandingState
show_part stats_part s = show_stats s
show_part roles_part s = record s { roles_in_view = true }
show_part steps_part s = record s { steps_in_view = true }
show_part feed_part s = record s { feed_in_view = true }
show_part ai_part s = record s { ai_in_view = true }
show_part cta_part s = record s { cta_in_view = true }

-- The interval of the feed is set once the feed is in view.
unfoldable pub landing_step : LandingInput → LandingState → LandingState
unfolding counter_frame
landing_step mounts s = record s { mounted = true }
landing_step (observes part false) s = s
landing_step (observes part true) s = show_part part s
landing_step feed_ticks s =
    if s.feed_in_view then record s { feed_offset = (s.feed_offset + 1) % 7 } else s
landing_step (paints ts) s = record s {
  games = counter_frame 1247 1600 ts s.games;
  win_rate = counter_frame 58 1200 ts s.win_rate;
  rounds = counter_frame 32 1000 ts s.rounds;
}

unfoldable pub landing_run : List LandingInput → LandingState → LandingState
unfolding landing_step
landing_run [] s = s
landing_run (i ∷ is) s = landing_run is (landing_step i s)
