-- ===== src/View/Chat/Laws.antt =====
-- When a message can be sent.
use Prim.Native.String.{String}
use mathlib.Core.Path.{◌≡◌, refl, sym, ◌∙◌}
use mathlib.Core.Logic.{◌⊎◌, ◌≢◌, inl, inr}
use mathlib.Core.Bool.{true, false, false≢true}
use mathlib.Core.Option.{Option, none, some}
use mathlib.Core.List.{[], ◌∷◌}
use native.Mathlib.Omega.{arith}
use ai_with_mafia.Common.Tests.{Bool-cases}
use text.Mathlib.Text.{◌==◌}
use text.Mathlib.TextEquality.{eq_iff}
use ai_with_mafia.Types.{Phase, day_discussion, day_vote, night, Phase.result as result_phase}
use ai_with_mafia.Common.Text.{trim}
use ai_with_mafia.Store.State.{Client, chat_payload}
use ai_with_mafia.Store.Connection.{send_action}
use ai_with_mafia.View.Dom.{clicks, send_chat}
use ai_with_mafia.View.Chat.{is_chat_phase, chat_input, handle_send}

-- The discussion of the day, or its vote.
abbrev pub IsDay : Option Phase → Type 0
IsDay phase = (phase ≡ some day_discussion) ⊎ (phase ≡ some day_vote)

IsDay-cases :
    (phase : Option Phase)
    → (IsDay phase × (is_chat_phase phase ≡ true))
      ⊎ ((¬ (IsDay phase)) × (is_chat_phase phase ≡ false))
IsDay-cases none = inr (λ d. elim d [ inl e ↦ cc | inr e ↦ cc ], refl)
IsDay-cases (some day_discussion) = inl (inl refl, refl)
IsDay-cases (some day_vote) = inl (inr refl, refl)
IsDay-cases (some night) = inr (λ d. elim d [ inl e ↦ cc | inr e ↦ cc ], refl)
IsDay-cases (some result_phase) = inr (λ d. elim d [ inl e ↦ cc | inr e ↦ cc ], refl)

-- The text can be sent: the button is there to click, and sends it without the white space at its
-- ends, and empties the field.
pub record Offers (field : String) (c : Client) : Type 0 where
  pub day : IsDay c.store.phase
  pub text : trim field ≢ ""
  pub button : clicks (chat_input field c.store) ≡ send_chat ∷ []
  pub sent : handle_send field c ≡ (send_action "chat" (chat_payload (trim field) none) c, "")

-- It cannot: the button is disabled, and sending changes neither the client nor the field.
pub record Refuses (field : String) (c : Client) : Type 0 where
  pub reason : (¬ (IsDay c.store.phase)) ⊎ (trim field ≡ "")
  pub button : clicks (chat_input field c.store) ≡ []
  pub kept : handle_send field c ≡ (c, field)

-- The input offers to send, in the two phases of the day and with a text that is not blank, or it
-- refuses to, in any other phase or with a blank text.
pub chat_input_sends : (field : String) (c : Client) → Offers field c ⊎ Refuses field c
unfolding chat_input handle_send clicks
chat_input_sends field c = elim (IsDay-cases c.store.phase) [
  | inl (day, can) ↦ elim (Bool-cases (trim field == "")) [
    | inl blank ↦ inr (record {
      reason = inr ((eq_iff (trim field) "").0 blank);
      button = rw (can, blank) refl;
      kept = rw (can, blank) refl;
    })
    | inr full ↦ inl (record {
      day = day;
      text = λ e. false≢true (sym full ∙ (eq_iff (trim field) "").1 e);
      button = rw (can, full) refl;
      sent = rw (can, full) refl;
    })
  ]
  | inr (other, cannot) ↦ inr (record {
    reason = inl other;
    button = ground (arith, cannot);
    kept = ground (arith, cannot);
  })
]
