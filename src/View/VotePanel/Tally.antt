-- ===== src/View/VotePanel/Tally.antt =====
-- The panel counts each vote once, and offers exactly the living others.
use Prim.Native.Nat.{ℕ, ◌+◌}
use Prim.Native.String.{String}
use mathlib.Core.Path.{◌≡◌, refl, ◌∙◌, sym, subst}
use mathlib.Core.Bool.{Bool, true, false}
use mathlib.Core.Option.{some}
use mathlib.Core.List.{List, [], ◌∷◌, map, append-nil}
use native.Mathlib.Omega.{arith}
use text.Mathlib.Text.{◌==◌}
use text.Mathlib.TextEquality.{eq_iff}
use ai_with_mafia.Common.Tests.{if◌then◌else◌, or_else}
use ai_with_mafia.Common.Lists.{length}
use ai_with_mafia.Common.Text.{truthy}
use ai_with_mafia.Common.Assoc.{lookup, insert, values, lookup-insert}
use ai_with_mafia.Types.{Room}
use ai_with_mafia.Store.State.{GameStore}
use ai_with_mafia.View.Dom.{words, element, when, clicks, clicks-each, vote_click}
use ai_with_mafia.View.VotePanel.{targets, tally, total, vote_counts, vote_panel, vote_panel_of}

-- How often a text stands in a list.
pub count : String → List String → ℕ
count t [] = 0
count t (x ∷ xs) = let rest = count t xs in if x == t then 1 + rest else rest

lookup-tally :
    (t : String) (ts : List String) (counts : List (String × ℕ))
    → or_else (lookup t (tally counts ts)) 0 ≡ or_else (lookup t counts) 0 + count t ts
unfolding tally count
lookup-tally t [] counts = omega arith
lookup-tally t (x ∷ ts) counts =
    lookup-tally t ts _
    ∙ ground (arith, lookup-insert x t (or_else (lookup x counts) 0 + 1) counts, eq_iff x t)

total-insert :
    (t : String) (n : ℕ) (counts : List (String × ℕ))
    → total (values (insert t n counts)) + or_else (lookup t counts) 0 ≡ total (values counts) + n
unfolding total insert lookup
total-insert t n [] = omega arith
total-insert t n ((k, v) ∷ counts) = ground (arith, total-insert t n counts)

total-tally :
    (ts : List String) (counts : List (String × ℕ))
    → total (values (tally counts ts)) ≡ total (values counts) + length ts
unfolding tally
total-tally [] counts = omega arith
total-tally (t ∷ ts) counts = omega (
  arith,
  total-tally ts (insert t (or_else (lookup t counts) 0 + 1) counts),
  total-insert t (or_else (lookup t counts) 0 + 1) counts,
)

-- The count shown beside a player is the number of votes for that player, and the total is the
-- number of votes.
pub vote_counts_lem :
    (votes : List (String × String)) (t : String)
    → (or_else (lookup t (vote_counts votes)) 0 ≡ count t (values votes))
      × (total (values (vote_counts votes)) ≡ length (values votes))
unfolding vote_counts total lookup
vote_counts_lem votes t =
    (lookup-tally t (values votes) [] ∙ omega arith, total-tally (values votes) [] ∙ omega arith)

footer-clicks : (b : Bool) (t : String) → clicks (when b (element "div" [] (words t))) ≡ []
unfolding clicks
footer-clicks true t = refl
footer-clicks false t = refl

clicks-vote_panel_of :
    (s : GameStore) (r : Room)
    → clicks (vote_panel_of s (some r)) ≡ map (λ p. vote_click p.id) (targets s r)
unfolding vote_panel clicks
clicks-vote_panel_of s r =
    rw
      (
        footer-clicks (truthy (lookup s.player_id s.votes)) "투표 완료 — 결과 대기 중",
        clicks-each _ (λ p. vote_click p.id) (targets s r) (λ p. refl),
        append-nil,
      )
      refl

-- In a room, the panel offers one button for each living player other than oneself, in the room's
-- order, and no other button.
pub clicks-vote_panel :
    (s : GameStore) (r : Room)
    → s.room ≡ some r
    → clicks (vote_panel s) ≡ map (λ p. vote_click p.id) (targets s r)
unfolding vote_panel
clicks-vote_panel s r here =
    subst (λ o. clicks (vote_panel_of s o) ≡ map (λ p. vote_click p.id) (targets s r)) (sym here)
      (clicks-vote_panel_of s r)
