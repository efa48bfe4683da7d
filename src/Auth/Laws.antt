-- ===== src/Auth/Laws.antt =====
-- What holds of the auth store.
use Prim.Native.Nat.{ℕ}
use Prim.Native.String.{String}
use mathlib.Core.Path.{◌≡◌, refl}
use mathlib.Core.Logic.{inl, inr, ◌⊎◌}
use mathlib.Core.Bool.{Bool, true, false}
use mathlib.Core.Option.{none, some}
use mathlib.Core.List.{List, [], ◌∷◌}
use native.Mathlib.Omega.{arith}
use ai_with_mafia.Common.Tests.{eqb}
use ai_with_mafia.Common.Lists.{find, All}
use ai_with_mafia.Auth.{
  Session, me, failed, not_started, stopped, subscribed, awaiting_me, AuthClient, AuthInput,
  initializes, session, me_replies, signed_in, signed_in_replies, signed_out, signs_out,
  is_subscribed, initial_auth, auth_step, auth_run,
}

-- `initialize` has failed: its request has thrown, and no handler waits.
pub record IsStuck (c : AuthClient) : Type 0 where
  pub was_started : c.initialized ≡ true
  pub ended : c.progress ≡ stopped
  pub none_waits : c.pending ≡ []
  pub still_loading : c.store.loading ≡ true

step-IsStuck : (i : AuthInput) (c : AuthClient) → IsStuck c → IsStuck (auth_step i c)
unfolding auth_step
step-IsStuck initializes c s = ground (arith, s)
step-IsStuck (session x) c s = ground (arith, s)
step-IsStuck (me_replies r) c s = ground (arith, s)
step-IsStuck (signed_in n x) c s = ground (arith, s)
step-IsStuck (signed_in_replies n r) c s = ground (arith, s)
step-IsStuck signed_out c s = ground (arith, s)
step-IsStuck signs_out c s = ground (arith, s)

run-IsStuck : (is : List AuthInput) (c : AuthClient) → IsStuck c → IsStuck (auth_run is c)
unfolding auth_run
run-IsStuck [] c s = s
run-IsStuck (i ∷ is) c s = run-IsStuck is (auth_step i c) (step-IsStuck i c s)

-- `initialize` has been called if it has got anywhere. Before the subscription no handler waits, and
-- the store is loading.
abbrev IsEarly : AuthClient → Type 0
IsEarly c =
    ((is_subscribed c.progress ≡ true) × (c.initialized ≡ true))
    ⊎ ((c.pending ≡ [])
        × (c.store.loading ≡ true)
        × ((c.progress ≡ not_started) ⊎ (c.initialized ≡ true)))

step-IsEarly : (i : AuthInput) (c : AuthClient) → IsEarly c → IsEarly (auth_step i c)
unfolding auth_step
step-IsEarly initializes c s = ground (arith, s)
step-IsEarly (session (some x)) c s = ground (arith, s)
step-IsEarly (session none) c s = ground (arith, s)
step-IsEarly (me_replies r) c s = ground (arith, s)
step-IsEarly (signed_in n x) c s = ground (arith, s)
step-IsEarly (signed_in_replies n r) c s = ground (arith, s)
step-IsEarly signed_out c s = ground (arith, s)
step-IsEarly signs_out c s = ground (arith, s)

run-IsEarly : (is : List AuthInput) (c : AuthClient) → IsEarly c → IsEarly (auth_run is c)
unfolding auth_run
run-IsEarly [] c s = s
run-IsEarly (i ∷ is) c s = run-IsEarly is (auth_step i c) (step-IsEarly i c s)

failed-IsStuck :
    (s : Session) (c : AuthClient)
    → IsEarly c
    → c.progress ≡ awaiting_me s
    → IsStuck (auth_step (me_replies failed) c)
unfolding auth_step
failed-IsStuck s c e at = ground (arith, e, at)

-- If the first request for the player throws, the store stays loading for ever, whatever came
-- before and whatever comes next, more calls of `initialize` and sign-ins included.
pub failed_initialize_loads :
    (s : Session) (before after : List AuthInput)
    → (auth_run before initial_auth).progress ≡ awaiting_me s
    → (auth_run after (auth_step (me_replies failed) (auth_run before initial_auth))).store.loading
      ≡ true
unfolding initial_auth
failed_initialize_loads s before after at =
    let early = run-IsEarly before initial_auth (inr (refl, refl, inl refl)) in
    (run-IsStuck after _ (failed-IsStuck s _ early at)).still_loading

-- A sign-in handler that is answered after the sign-out brings the user back.
pub signed_out_returns :
    (n m : ℕ) (s : Session) (player_id display_name : String) (c : AuthClient)
    → find (λ e. eqb e.0 n) c.pending ≡ some (m, s)
    → (auth_step
        (signed_in_replies n (me player_id display_name))
        (auth_step signs_out c)).store.user
      ≡ some s.user
unfolding auth_step
signed_out_returns n m s player_id display_name c h = rw h refl

-- Nobody is signed in, and no answer can change that.
pub record IsSignedOut (c : AuthClient) : Type 0 where
  pub no_user : c.store.user ≡ none
  pub no_player : c.store.player_id ≡ ""
  pub no_name : c.store.display_name ≡ ""
  pub none_waits : c.pending ≡ []
  pub is_over : (c.progress ≡ subscribed) ⊎ (c.progress ≡ stopped)
  pub was_started : c.initialized ≡ true

abbrev pub is_signed_in : AuthInput → Bool
is_signed_in (signed_in n s) = true
is_signed_in _ = false

step-IsSignedOut :
    (i : AuthInput) (c : AuthClient)
    → is_signed_in i ≡ false
    → IsSignedOut c
    → IsSignedOut (auth_step i c)
unfolding auth_step
step-IsSignedOut initializes c h s = ground (arith, s)
step-IsSignedOut (session x) c h s = ground (arith, s)
step-IsSignedOut (me_replies r) c h s = ground (arith, s)
step-IsSignedOut (signed_in n x) c h s = cc
step-IsSignedOut (signed_in_replies n r) c h s = ground (arith, s)
step-IsSignedOut signed_out c h s = ground (arith, s)
step-IsSignedOut signs_out c h s = ground (arith, s)

signs_out-IsSignedOut :
    (c : AuthClient)
    → c.initialized ≡ true
    → (c.progress ≡ subscribed) ⊎ (c.progress ≡ stopped)
    → c.pending ≡ []
    → IsSignedOut (auth_step signs_out c)
unfolding auth_step
signs_out-IsSignedOut c a b d = ground arith

run-IsSignedOut :
    (is : List AuthInput) (c : AuthClient)
    → All (λ i. is_signed_in i ≡ false) is
    → IsSignedOut c
    → IsSignedOut (auth_run is c)
unfolding auth_run
run-IsSignedOut [] c h s = s
run-IsSignedOut (i ∷ is) c h s = run-IsSignedOut is (auth_step i c) h.1 (step-IsSignedOut i c h.0 s)

-- When `initialize` is over and no handler waits, `signOut` clears the user, the player and the
-- name, and they stay cleared until Supabase reports a sign-in.
pub sign_out_final :
    (c : AuthClient) (is : List AuthInput)
    → c.initialized ≡ true
    → (c.progress ≡ subscribed) ⊎ (c.progress ≡ stopped)
    → c.pending ≡ []
    → All (λ i. is_signed_in i ≡ false) is
    → IsSignedOut (auth_run is (auth_step signs_out c))
sign_out_final c is a b d h = run-IsSignedOut is _ h (signs_out-IsSignedOut c a b d)
