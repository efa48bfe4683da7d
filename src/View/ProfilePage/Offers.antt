-- ===== src/View/ProfilePage/Offers.antt =====
-- What the profile offers.
use Prim.Native.Nat.{ℕ}
use Prim.Native.String.{String}
use mathlib.Core.Path.{◌≡◌, refl}
use mathlib.Core.Logic.{inl, inr}
use mathlib.Core.Bool.{Bool, true, false, not}
use mathlib.Core.Option.{Option}
use mathlib.Core.List.{List, [], ◌∷◌, ◌++◌, append-nil}
use ai_with_mafia.Common.Tests.{if◌then◌else◌, Bool-cases}
use ai_with_mafia.Common.Text.{truthy, not_empty}
use ai_with_mafia.Profile.{RoleStats, MyGameRecord, ProfileState}
use ai_with_mafia.View.Dom.{
  Handler, each, clicks, clicks-each_none, clicks-when_none, go_lobby, start_edit_click, save_click,
  cancel_edit_click, sign_out_click,
}
use ai_with_mafia.View.ProfilePage.{
  avatar, name_form, name_line, profile_header, stats_cards, role_entries, role_table, role_line,
  game_line, game_table, recent_games, profile_page, caption, heading, table_head,
}

-- The name: it is saved or cancelled while it is edited, and otherwise it can be edited.
abbrev pub name_offers : Bool → Bool → List Handler
name_offers true saving = (if saving then [] else save_click ∷ []) ++ cancel_edit_click ∷ []
name_offers false saving = start_edit_click ∷ []

avatar-clicks :
    (initial : String → String) (url : Option String) (name : String)
    → clicks (avatar initial url name) ≡ []
unfolding clicks
avatar-clicks initial url name = elim (Bool-cases (truthy url)) [
  | inl there ↦ rw there refl
  | inr absent ↦ rw absent refl
]

table_head-clicks : (names : List String) → clicks (table_head names) ≡ []
unfolding clicks
table_head-clicks names = rw (clicks-each_none heading names (λ n. refl)) refl

game_table-clicks :
    (utc : String → Option (ℕ × ℕ)) (games : List MyGameRecord) → clicks (game_table utc games) ≡ []
unfolding clicks each
game_table-clicks utc [] = refl
game_table-clicks utc (g ∷ games) = rw (clicks-each_none (game_line utc) games (λ n. refl)) refl

recent_games-clicks :
    (loading : Bool) (utc : String → Option (ℕ × ℕ)) (games : List MyGameRecord)
    → clicks (recent_games loading utc games) ≡ []
unfolding clicks
recent_games-clicks true utc games = refl
recent_games-clicks false utc games = rw (game_table-clicks utc games) refl

module _ {ℓ} {Rate : Type ℓ} where
  name-clicks :
      (name : String) (s : ProfileState Rate)
      → clicks (if s.editing then name_form s else name_line name) ≡ name_offers s.editing s.saving
  unfolding name_form name_line clicks
  name-clicks name s = elim (Bool-cases s.editing) [
    | inl editing ↦ elim (Bool-cases s.saving) [
      | inl saving ↦
          rw
            (editing, saving, clicks-when_none (not_empty s.edit_error) (caption s.edit_error) refl)
            refl
      | inr ready ↦
          rw (editing, ready, clicks-when_none (not_empty s.edit_error) (caption s.edit_error) refl)
            refl
    ]
    | inr still ↦ rw still refl
  ]

  profile_header-clicks :
      (initial : String → String) (url email : Option String) (name : String)
      (s : ProfileState Rate)
      → clicks (profile_header initial url email name s) ≡ name_offers s.editing s.saving
  unfolding profile_header clicks
  profile_header-clicks initial url email name s =
      rw (avatar-clicks initial url name, name-clicks name s, append-nil, append-nil) refl

  module _ (nought : Rate) (percent : Rate → String) where
    role_table-clicks :
        (entries : List (String × RoleStats Rate)) → clicks (role_table nought percent entries) ≡ []
    unfolding clicks each
    role_table-clicks [] = refl
    role_table-clicks (e ∷ entries) =
        rw (clicks-each_none (role_line nought percent) entries (λ x. refl)) refl

    stats_cards-clicks : (s : ProfileState Rate) → clicks (stats_cards nought percent s) ≡ []
    unfolding stats_cards clicks
    stats_cards-clicks s = refl

    -- Whatever the profile has loaded, it offers the way to the lobby twice, to sign out, and in
    -- between either to edit the name, or to cancel and, unless a save waits for its answer, to save.
    clicks-profile_page :
        (utc : String → Option (ℕ × ℕ)) (initial : String → String) (url email : Option String)
        (name : String) (s : ProfileState Rate)
        → clicks (profile_page nought percent utc initial url email name s)
          ≡ go_lobby ∷ (name_offers s.editing s.saving ++ go_lobby ∷ sign_out_click ∷ [])
    unfolding profile_page clicks
    clicks-profile_page utc initial url email name s =
        rw
          (
            profile_header-clicks initial url email name s,
            stats_cards-clicks s,
            clicks-when_none s.fetch_error _ refl,
            clicks-when_none (not s.stats_loading) _ (role_table-clicks (role_entries s.stats)),
            recent_games-clicks s.stats_loading utc s.games,
            append-nil (name_offers s.editing s.saving ++ go_lobby ∷ sign_out_click ∷ []),
          )
          refl
