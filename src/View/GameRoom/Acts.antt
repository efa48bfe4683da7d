-- ===== src/View/GameRoom/Acts.antt =====
-- From a click in the action panel to the frame on the socket.
use Prim.Native.Nat.{ℕ}
use Prim.Native.String.{String}
use mathlib.Core.Path.{◌≡◌, refl, ◌∙◌, ap}
use mathlib.Core.Logic.{◌≢◌}
use mathlib.Core.Bool.{true}
use mathlib.Core.Option.{Option, none, some}
use mathlib.Core.List.{[], ◌∷◌, ◌++◌}
use native.Mathlib.Omega.{arith}
use text.Mathlib.Text.{◌==◌}
use ai_with_mafia.Common.Lists.{any, All, All-map, All-weaken, get_elem?}
use ai_with_mafia.Types.{
  Phase, day_discussion, day_vote, night, Phase.result as result_phase, Role, mafia, police,
  citizen, unassigned, Player, Room,
}
use ai_with_mafia.Store.State.{
  GameStore, Client, Socket, Outgoing, Payload, vote_payload, night_payload,
}
use ai_with_mafia.Store.Connection.{send_action, send_to, is_ready}
use ai_with_mafia.Store.Steps.Attempts.{send_action_sent}
use ai_with_mafia.View.Dom.{Handler, clicks, vote_click, kill_click, investigate_click}
use ai_with_mafia.View.VotePanel.{targets, handle_vote}
use ai_with_mafia.View.NightPanel.{handle_kill, handle_investigate}
use ai_with_mafia.View.NightPanel.Targets.{targets-All, night_power}
use ai_with_mafia.View.GameRoom.{action_panel}
use ai_with_mafia.View.GameRoom.Powers.{phase_power, clicks-action_panel}

-- What a click in the panel runs; the panel offers no other handler.
unfoldable pub act : Handler → Client → Client
unfolding handle_vote handle_kill handle_investigate
act (vote_click id) c = handle_vote id c
act (kill_click id) c = handle_kill id c
act (investigate_click id) c = handle_investigate id c
act _ c = c

-- The frame that a player of this role may send in this phase, about a target.
abbrev pub Permits : Option Phase → Role → String → Outgoing → Type 0
Permits (some day_vote) role id f = f ≡ record { kind = "vote"; payload = vote_payload id }
Permits (some night) mafia id f = f ≡ record { kind = "kill"; payload = night_payload "kill" id }
Permits (some night) police id f =
    f ≡ record { kind = "investigate"; payload = night_payload "investigate" id }
Permits _ _ id f = ⊥

-- The click sends one frame on the socket, which the phase and the role permit, about somebody else
-- who lives; the store stays as it is.
pub record SendsOne (c : Client) (w : ℕ) (s : Socket) (h : Handler) : Type 0 where
  pub target : String
  pub frame : Outgoing
  pub sent : get_elem? (act h c).sockets w ≡ some (record s { sent = s.sent ++ frame ∷ [] })
  pub store : (act h c).store ≡ c.store
  pub permits : Permits c.store.phase c.store.my_role target frame
  pub living : any (λ a. a == target) c.store.alive_player_ids ≡ true
  pub other : target ≢ c.store.player_id

send_to-store : (o : Option ℕ) (f : Outgoing) (c : Client) → (send_to o f c).store ≡ c.store
send_to-store none f c = refl
send_to-store (some h) f c = refl

send_action-store :
    (kind : String) (p : Payload) (c : Client) → (send_action kind p c).store ≡ c.store
unfolding send_action
send_action-store kind p c = send_to-store c.ws _ c

abbrev IsTarget : GameStore → Player → Type 0
IsTarget s p = (any (λ a. a == p.id) s.alive_player_ids ≡ true) × (p.id ≢ s.player_id)

module _ (c : Client) (w : ℕ) (s : Socket) (used : c.ws ≡ some w)
    (here : get_elem? c.sockets w ≡ some s) (open_now : is_ready s.ready_state ≡ true) where
  sent_on :
      (kind : String) (payload : Payload)
      → get_elem? (send_action kind payload c).sockets w
        ≡ some (record s { sent = s.sent ++ record { kind = kind; payload = payload } ∷ [] })
  sent_on kind payload =
      send_action_sent kind payload c w w s used here ∙ ap some (rw open_now (ground arith))

  vote-SendsOne :
      (p : Player)
      → c.store.phase ≡ some day_vote
      → IsTarget c.store p
      → SendsOne c w s (vote_click p.id)
  unfolding act
  vote-SendsOne p phase t = record {
    target = p.id;
    frame = record { kind = "vote"; payload = vote_payload p.id };
    sent = sent_on _ _;
    store = send_action-store _ _ c;
    permits = rw phase refl;
    living = t.0;
    other = t.1;
  }

  kill-SendsOne :
      (p : Player)
      → c.store.phase ≡ some night
      → c.store.my_role ≡ mafia
      → IsTarget c.store p
      → SendsOne c w s (kill_click p.id)
  unfolding act
  kill-SendsOne p phase role t = record {
    target = p.id;
    frame = record { kind = "kill"; payload = night_payload "kill" p.id };
    sent = sent_on _ _;
    store = send_action-store _ _ c;
    permits = rw (phase, role) refl;
    living = t.0;
    other = t.1;
  }

  investigate-SendsOne :
      (p : Player)
      → c.store.phase ≡ some night
      → c.store.my_role ≡ police
      → IsTarget c.store p
      → SendsOne c w s (investigate_click p.id)
  unfolding act
  investigate-SendsOne p phase role t = record {
    target = p.id;
    frame = record { kind = "investigate"; payload = night_payload "investigate" p.id };
    sent = sent_on _ _;
    store = send_action-store _ _ c;
    permits = rw (phase, role) refl;
    living = t.0;
    other = t.1;
  }

  night_power-All :
      (role : Role) (r : Room)
      → c.store.phase ≡ some night
      → c.store.my_role ≡ role
      → All (SendsOne c w s) (night_power role (targets c.store r))
  night_power-All mafia r phase role =
      All-map (SendsOne c w s) (λ p. kill_click p.id) _
        (All-weaken (IsTarget c.store) _ (λ p. kill-SendsOne p phase role) (targets-All c.store r))
  night_power-All police r phase role =
      All-map (SendsOne c w s) (λ p. investigate_click p.id) _
        (All-weaken (IsTarget c.store) _ (λ p. investigate-SendsOne p phase role)
          (targets-All c.store r))
  night_power-All citizen r phase role = tt
  night_power-All unassigned r phase role = tt

  phase_power-All :
      (phase : Option Phase) (r : Room)
      → c.store.phase ≡ phase
      → All (SendsOne c w s) (phase_power phase c.store r)
  phase_power-All none r phase = tt
  phase_power-All (some day_discussion) r phase = tt
  phase_power-All (some result_phase) r phase = tt
  phase_power-All (some day_vote) r phase =
      All-map (SendsOne c w s) (λ p. vote_click p.id) _
        (All-weaken (IsTarget c.store) _ (λ p. vote-SendsOne p phase) (targets-All c.store r))
  phase_power-All (some night) r phase = night_power-All c.store.my_role r phase refl

  -- In a room, while the socket in use is open, every click that the action panel offers sends
  -- exactly one frame on it and leaves the store as it is. The frame is a vote in the phase of the
  -- vote, and at night a kill of the mafia or an investigation of the police; its target lives and
  -- is somebody else.
  pub action_panel-SendsOne :
      (r : Room) → c.store.room ≡ some r → All (SendsOne c w s) (clicks (action_panel c.store))
  action_panel-SendsOne r room =
      rw (clicks-action_panel c.store r room) (phase_power-All c.store.phase r refl)
