-- ===== src/Store/Steps/Room/Attempts.antt =====
-- What the waiting bodies of `connect` do to the room of the client.
use Prim.Native.Nat.{ℕ}
use Prim.Native.String.{String}
use mathlib.Core.Path.{◌≡◌, refl, ap, subst, ◌∙◌}
use mathlib.Core.Logic.{inl, inr}
use mathlib.Core.Bool.{Bool, not}
use mathlib.Core.Option.{some}
use mathlib.Core.List.{List, [], ◌∷◌}
use native.Mathlib.Omega.{arith}
use text.Mathlib.Text.{◌==◌}
use ai_with_mafia.Common.Tests.{Bool-cases, Option-cases, eqb, eq_of_some}
use ai_with_mafia.Common.Lists.{get_elem?-lt, get_elem?-concat, find, filter, All, All-filter}
use ai_with_mafia.Store.State.{Client, Attempt, Stage, importing, awaiting_token}
use ai_with_mafia.Store.Connection.{
  Location, room_url, read_player, is_importing, is_waiting, token_ready, after_token, open_socket,
  new_socket, drop_socket, finish_attempt,
}
use ai_with_mafia.Store.Steps.Sockets.{length-drop_socket}
use ai_with_mafia.Store.Steps.Room.{InRoom, keep-InRoom, IsFor, IsOwn}

find-All :
    (P : Attempt → Type 0) (p : Attempt → Bool) (xs : List Attempt) {a : Attempt}
    → All P xs
    → find p xs ≡ some a
    → P a
unfolding find
find-All P p [] h e = cc
find-All P p (x ∷ xs) h e = elim (Bool-cases (p x)) [
  | inl here ↦ let same = rw here at e in subst P (eq_of_some same) h.0
  | inr later ↦ find-All P p xs h.1 (rw later at e)
]

module _ (loc : Location) (id player_id : String) where
  open_socket-InRoom :
      (room_id q token : String) (c : Client)
      → room_id ≡ id
      → q ≡ player_id
      → InRoom loc id player_id c
      → InRoom loc id player_id (open_socket loc room_id q token c)
  unfolding open_socket new_socket
  open_socket-InRoom room_id q token c same mine r = record {
    current = r.current;
    asked = r.asked;
    used = λ h s e at. elim (get_elem?-concat (drop_socket c.ws c.sockets) _ h e) [
      | inl (last, made) ↦ (token, ap (λ b. b.url) made ∙ ap (λ i. room_url loc i token) same)
      | inr old ↦ absurd (
          omega (
            arith,
            get_elem?-lt (drop_socket c.ws c.sockets) h old,
            length-drop_socket c.ws c.sockets,
            eq_of_some at,
          ))
    ];
    own = λ h at. mine;
  }

  after_token-InRoom :
      (g : ℕ) (room_id q token : String) (c : Client)
      → room_id ≡ id
      → q ≡ player_id
      → InRoom loc id player_id c
      → InRoom loc id player_id (after_token loc g room_id q token c)
  unfolding after_token
  after_token-InRoom g room_id q token c same mine r = elim (Bool-cases (token == "")) [
    | inl empty ↦ rw empty (keep-InRoom loc id player_id c _ refl refl refl refl refl r)
    | inr full ↦ elim (Bool-cases (eqb g c.connect_generation)) [
      | inl latest ↦ rw (full, latest) (open_socket-InRoom room_id q token c same mine r)
      | inr stale ↦ rw (full, stale) r
    ]
  ]

  finish_attempt-InRoom :
      (token : String) (st : Stage) (a : Attempt) (c : Client)
      → a.room_id ≡ id
      → IsOwn player_id st
      → InRoom loc id player_id c
      → InRoom loc id player_id (finish_attempt loc token st a c)
  finish_attempt-InRoom token importing a c same mine r = r
  finish_attempt-InRoom token (awaiting_token p) a c same mine r =
      after_token-InRoom a.generation a.room_id p token c same mine r

  -- Attempts that are taken away change no room.
  pub drop_attempts-InRoom :
      (p : Attempt → Bool) (c : Client)
      → InRoom loc id player_id c
      → InRoom loc id player_id (record c { attempts = filter p c.attempts })
  drop_attempts-InRoom p c r = record {
    current = r.current;
    asked = All-filter (IsFor loc id player_id) p c.attempts r.asked;
    used = r.used;
    own = r.own;
  }

  pub token_ready-InRoom :
      (g : ℕ) (token : String) (c : Client)
      → InRoom loc id player_id c
      → InRoom loc id player_id (token_ready loc g token c)
  unfolding token_ready
  token_ready-InRoom g token c r = elim (Option-cases (find (is_waiting g) c.attempts)) [
    | inl missing ↦ rw (missing, token_ready) r
    | inr (a, found) ↦
        let (same, mine) = find-All _ (is_waiting g) c.attempts r.asked found in
        rw (found, token_ready)
          (finish_attempt-InRoom token a.stage a _ same mine
            (drop_attempts-InRoom (λ b. not (is_waiting g b)) c r))
  ]

  -- The import of a waiting body reads the player's id.
  pub read_player-IsFor :
      (g : ℕ) (q : String) (a : Attempt)
      → q ≡ player_id
      → IsFor loc id player_id a
      → IsFor loc id player_id (read_player g q a)
  unfolding read_player
  read_player-IsFor g q a mine h = elim (Bool-cases (eqb a.generation g)) [
    | inl same ↦ elim (Bool-cases (is_importing a.stage)) [
      | inl early ↦ rw (same, early) (h.0, mine)
      | inr later ↦ rw (same, later) h
    ]
    | inr other ↦ rw other h
  ]
