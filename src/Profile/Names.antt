-- ===== src/Profile/Names.antt =====
-- The names that the profile sends.
use Prim.Native.Nat.{◌≤◌}
use Prim.Native.String.{String}
use mathlib.Core.Path.{◌≡◌, refl}
use mathlib.Core.Logic.{inl, inr}
use mathlib.Core.Bool.{◌||◌}
use mathlib.Core.Option.{some}
use mathlib.Core.List.{List, [], ◌∷◌, ◌++◌, append-nil}
use native.Mathlib.Omega.{arith}
use ai_with_mafia.Common.Tests.{eqb, ltb, Bool-cases}
use ai_with_mafia.Common.Text.{trim, utf16_length}
use ai_with_mafia.Common.Text.Trim.{trim-trim}
use ai_with_mafia.Common.Lists.{All, All-concat}
use ai_with_mafia.Auth.{AuthStore}
use ai_with_mafia.Api.{Call, update_me, RequestError, thrown}
use ai_with_mafia.Profile.{
  ProfileState, ProfileInput, ProfileClient, starts_edit, cancels_edit, saves, types, save_replies,
  save_edit, save_settled, profile_step, profile_run, to_calls,
}

-- A name of one to fifty UTF-16 units, without white space at its ends.
abbrev pub IsNickname : String → Type 0
IsNickname name = (1 ≤ utf16_length name) × (utf16_length name ≤ 50) × (trim name ≡ name)

-- The calls of the page name the player so.
abbrev pub Sends : Call → Type 0
Sends (update_me name) = IsNickname name
Sends _ = ⊥

module _ {ℓ} {Rate : Type ℓ} where
  save_edit-calls :
      (s : ProfileState Rate) (calls : List Call)
      → All Sends calls
      → All Sends (calls ++ to_calls (save_edit s).1)
  unfolding save_edit
  save_edit-calls s calls h =
      let size = utf16_length (trim s.edit_value) in
      elim (Bool-cases (eqb size 0 || ltb 50 size)) [
        | inl bad ↦ rw (bad, append-nil calls) h
        | inr good ↦ rw good (
            All-concat Sends calls h
              (ground (arith, good), ground (arith, good), trim-trim s.edit_value))
      ]

  profile_step-calls :
      (i : ProfileInput) (c : ProfileClient Rate)
      → All Sends c.calls
      → All Sends (profile_step i c).calls
  unfolding profile_step
  profile_step-calls starts_edit c h = h
  profile_step-calls cancels_edit c h = h
  profile_step-calls saves c h = save_edit-calls c.state c.calls h
  profile_step-calls (types t) c h = h
  profile_step-calls (save_replies r) c h = h

  -- Whatever is typed, saved, cancelled and answered: every name that the page sends has one to
  -- fifty UTF-16 units and no white space at its ends, if it is so of the names sent before.
  pub profile_run-Sends :
      (is : List ProfileInput) (c : ProfileClient Rate)
      → All Sends c.calls
      → All Sends (profile_run is c).calls
  unfolding profile_run
  profile_run-Sends [] c h = h
  profile_run-Sends (i ∷ is) c h =
      profile_run-Sends is (profile_step i c) (profile_step-calls i c h)

  -- A save that makes a call makes the same call when it is asked for again: while it waits for the
  -- answer, and after it has failed. A failure leaves the name of the player as it is.
  save_edit_again :
      (s : ProfileState Rate) (a : AuthStore) (call : Call) (e : RequestError)
      → (save_edit s).1 ≡ some call
      → let waits = (save_edit s).0 in
        let failed = save_settled (thrown e) (waits, a) in
        ((save_edit waits).1 ≡ some call)
        × ((save_edit failed.0).1 ≡ some call)
        × (failed.0.editing ≡ s.editing)
        × (failed.1 ≡ a)
  unfolding save_edit save_settled
  save_edit_again s a call e h =
      let size = utf16_length (trim s.edit_value) in
      elim (Bool-cases (eqb size 0 || ltb 50 size)) [
        | inl bad ↦ let refused = rw bad at h in cc refused
        | inr good ↦ let sent = rw good at h in rw good (rw good (sent, sent, refl, refl))
      ]
