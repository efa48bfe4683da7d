-- ===== src/Store/Steps/Delay.antt =====
-- The delay of the reconnects over a run.
use Prim.Native.Nat.{ℕ, zero, suc, ◌*◌, ◌^◌, ◌≤◌, min}
use Prim.Native.String.{String}
use mathlib.Core.Path.{◌≡◌, refl, ◌∙◌, ap}
use mathlib.Core.Logic.{inl, inr}
use mathlib.Core.Bool.{Bool, true, false}
use mathlib.Core.Option.{Option, none, some}
use mathlib.Core.List.{List, [], ◌∷◌}
use native.Mathlib.Nat.{pow-suc}
use native.Mathlib.Decide.{dec_le}
use native.Mathlib.Omega.{arith}
use ai_with_mafia.Common.Tests.{if◌then◌else◌, Bool-cases, eqb}
use ai_with_mafia.Common.Lists.{any, find, All}
use ai_with_mafia.Store.State.{Client, Attempt, Stage, importing, awaiting_token, Outgoing}
use ai_with_mafia.Store.Connection.{
  Location, is_waiting, token_ready, after_token, finish_attempt, resume, connect, imported,
  reconnect, disconnect, send_action, send_to,
}
use ai_with_mafia.Store.Steps.{
  Input, connects, disconnects, sends, shifts, clears_result, imports, tokens, rejects, opens,
  receives, closes, expires, ticks, step, run,
}
use ai_with_mafia.Store.Steps.Link.{Link}
use ai_with_mafia.Store.Steps.Frames.{on_message-link, tick-link}

-- A reconnect timer fires.
abbrev pub fires : Input → Client → Bool
fires (expires t) c = any (λ e. eqb e.0 t) c.timeouts
fires _ c = false

abbrev pub is_opens : Input → Bool
is_opens (opens h) = true
is_opens _ = false

-- How many reconnect timers fire in a run.
unfoldable pub fired : Location → List Input → Client → ℕ
fired loc [] c = 0
fired loc (i ∷ is) c =
    let rest = fired loc is (step loc i c) in if fires i c then suc rest else rest

abbrev next_delay : Bool → ℕ → ℕ
next_delay false d = d
next_delay true d = min (d * 2) 10000

after_token-delay :
    (loc : Location) (g : ℕ) (room_id player_id token : String) (c : Client)
    → (after_token loc g room_id player_id token c).reconnect_delay ≡ c.reconnect_delay
unfolding after_token
after_token-delay loc g room_id player_id token c = ground arith

finish_attempt-delay :
    (loc : Location) (token : String) (st : Stage) (a : Attempt) (c : Client)
    → (finish_attempt loc token st a c).reconnect_delay ≡ c.reconnect_delay
finish_attempt-delay loc token importing a c = refl
finish_attempt-delay loc token (awaiting_token p) a c =
    after_token-delay loc a.generation a.room_id p token c

resume-delay :
    (loc : Location) (g : ℕ) (token : String) (o : Option Attempt) (c : Client)
    → (resume loc g token o c).reconnect_delay ≡ c.reconnect_delay
resume-delay loc g token none c = refl
resume-delay loc g token (some a) c = finish_attempt-delay loc token a.stage a _

send_to-delay :
    (o : Option ℕ) (f : Outgoing) (c : Client) → (send_to o f c).reconnect_delay ≡ c.reconnect_delay
send_to-delay none f c = refl
send_to-delay (some h) f c = refl

step-delay :
    (loc : Location) (i : Input) (c : Client)
    → is_opens i ≡ false
    → (step loc i c).reconnect_delay ≡ next_delay (fires i c) c.reconnect_delay
unfolding step connect imported reconnect send_action token_ready disconnect
step-delay loc (connects room_id) c h = refl
step-delay loc disconnects c h = refl
step-delay loc (sends kind payload) c h = send_to-delay c.ws _ c
step-delay loc shifts c h = refl
step-delay loc clears_result c h = refl
step-delay loc (imports g player_id) c h = refl
step-delay loc (tokens g token) c h = resume-delay loc g token (find (is_waiting g) c.attempts) c
step-delay loc (rejects g) c h = refl
step-delay loc (opens k) c h = cc
step-delay loc (receives k msg_id frame) c h =
    ground (arith, ap (λ (l : Link). l.reconnect_delay) (on_message-link msg_id frame c))
step-delay loc (closes k) c h = ground arith
step-delay loc (expires t) c h = ground arith
step-delay loc (ticks t) c h = ground (arith, ap (λ (l : Link). l.reconnect_delay) (tick-link c))

capped : (d p : ℕ) → 1 ≤ p → min (min (d * 2) 10000 * p) 10000 ≡ min (d * (p * 2)) 10000
capped d p h = elim (dec_le (d * 2) 10000) [
  | yes low ↦ let e : min (d * 2) 10000 ≡ d * 2 = omega arith in rw e (omega arith)
  | no high ↦
      let e : min (d * 2) 10000 ≡ 10000 = omega arith in
      let big : 10000 * p ≤ d * 2 * p = grind arith in rw e (omega arith)
]

pow-pos : (k : ℕ) → 1 ≤ 2 ^ k
pow-pos zero = omega arith
pow-pos (suc k) = omega (arith, pow-suc 2 k, pow-pos k)

next_delay-pow : (d k : ℕ) → min (min (d * 2) 10000 * 2 ^ k) 10000 ≡ min (d * 2 ^ suc k) 10000
next_delay-pow d k = rw (pow-suc 2 k) (capped d (2 ^ k) (pow-pos k))

-- In a run in which no socket opens, each reconnect timer that fires doubles the delay, up to ten
-- seconds.
pub run-delay :
    (loc : Location) (is : List Input) (c : Client)
    → c.reconnect_delay ≤ 10000
    → All (λ i. is_opens i ≡ false) is
    → (run loc is c).reconnect_delay ≡ min (c.reconnect_delay * 2 ^ fired loc is c) 10000
unfolding run fired
run-delay loc [] c low h = omega arith
run-delay loc (i ∷ is) c low h =
    let now = step-delay loc i c h.0 in
    elim (Bool-cases (fires i c)) [
      | inl firing ↦ rw firing (
          run-delay loc is (step loc i c) (rw (now, firing) (omega arith)) h.1
          ∙ rw (now, firing) (next_delay-pow c.reconnect_delay (fired loc is (step loc i c))))
      | inr quiet ↦
          rw quiet
            (run-delay loc is (step loc i c) (rw (now, quiet) low) h.1 ∙ rw (now, quiet) refl)
    ]
