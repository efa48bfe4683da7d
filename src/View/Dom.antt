-- ===== src/View/Dom.antt =====
-- What a component returns. Of an element's props the handlers, the conditions and the parts of
-- `style` that depend on the state are kept; constant styles, ids and keys are left out.
use Prim.Native.Nat.{ℕ, suc}
use Prim.Native.String.{String}
use mathlib.Core.Path.{◌≡◌, refl}
use mathlib.Core.Bool.{Bool, true, false, ◌||◌}
use mathlib.Core.List.{List, [], ◌∷◌, ◌++◌, map}
use ai_with_mafia.Common.Tests.{if◌then◌else◌}
use ai_with_mafia.Types.{Room, Visibility}

-- The handlers that the components attach, by what they close over.
pub data Handler : Type 0 where
  vote_click kill_click investigate_click : String → Handler
  send_chat send_mafia_chat toggle_fullscreen shift_click : Handler
  start_click restart_click leave_click confirm_leave cancel_leave : Handler
  go_home go_profile go_lobby quick_click create_click code_click refresh_click : Handler
  join_click close_join cta_click : Handler
  visibility_click : Visibility → Handler
  open_click : Room → Handler
  start_edit_click save_click cancel_edit_click sign_out_click : Handler

pub data Attr : Type 0 where
  on_click on_enter on_escape : Handler → Attr
  disabled : Bool → Attr
  style : String → String → Attr
  prop : String → String → Attr

-- `empty` is `null` and `false`; `beside` joins children, as a fragment does.
pub data Node : Type 0 where
  empty : Node
  words : String → Node
  element : String → List Attr → Node → Node
  beside : Node → Node → Node

abbrev pub all_of : List Node → Node
all_of [] = empty
all_of (n ∷ ns) = beside n (all_of ns)

-- `{b && node}`
abbrev pub when : Bool → Node → Node
when b n = if b then n else empty

module _ {ℓ} {A : Type ℓ} where
  -- `{items.map(f)}`
  unfoldable pub each : (A → Node) → List A → Node
  each f [] = empty
  each f (a ∷ items) = beside (f a) (each f items)

  unfoldable pub each_from : ℕ → (ℕ → A → Node) → List A → Node
  each_from i f [] = empty
  each_from i f (a ∷ items) = beside (f i a) (each_from (suc i) f items)

abbrev pub is_disabled : List Attr → Bool
is_disabled [] = false
is_disabled (disabled b ∷ attrs) = b || is_disabled attrs
is_disabled (_ ∷ attrs) = is_disabled attrs

abbrev pub clicks_of : List Attr → List Handler
clicks_of [] = []
clicks_of (on_click h ∷ attrs) = h ∷ clicks_of attrs
clicks_of (_ ∷ attrs) = clicks_of attrs

-- The handlers that a click can reach, in document order.
unfoldable pub clicks : Node → List Handler
clicks empty = []
clicks (words t) = []
clicks (element tag attrs kids) = (if is_disabled attrs then [] else clicks_of attrs) ++ clicks kids
clicks (beside a b) = clicks a ++ clicks b

-- The texts that are shown, in document order.
unfoldable pub texts : Node → List String
texts empty = []
texts (words t) = t ∷ []
texts (element tag attrs kids) = texts kids
texts (beside a b) = texts a ++ texts b

-- A list of items each of which offers one handler offers those handlers.
pub clicks-each {ℓ} :
    {A : Type ℓ} (f : A → Node) (h : A → Handler) (items : List A)
    → ((a : A) → clicks (f a) ≡ h a ∷ [])
    → clicks (each f items) ≡ map h items
unfolding clicks each
clicks-each f h [] one = refl
clicks-each f h (a ∷ items) one = rw (one a, clicks-each f h items one) refl

-- A list of items that offer nothing offers nothing.
pub clicks-each_none {ℓ} :
    {A : Type ℓ} (f : A → Node) (items : List A)
    → ((a : A) → clicks (f a) ≡ [])
    → clicks (each f items) ≡ []
unfolding clicks each
clicks-each_none f [] none_here = refl
clicks-each_none f (a ∷ items) none_here = rw (none_here a, clicks-each_none f items none_here) refl

pub clicks-each_from_none {ℓ} :
    {A : Type ℓ} (i : ℕ) (f : ℕ → A → Node) (items : List A)
    → ((j : ℕ) (a : A) → clicks (f j a) ≡ [])
    → clicks (each_from i f items) ≡ []
unfolding clicks each_from
clicks-each_from_none i f [] none_here = refl
clicks-each_from_none i f (a ∷ items) none_here =
    rw (none_here i a, clicks-each_from_none (suc i) f items none_here) refl

-- A condition on something that offers nothing offers nothing.
pub clicks-when_none : (b : Bool) (n : Node) → clicks n ≡ [] → clicks (when b n) ≡ []
unfolding clicks
clicks-when_none true n h = h
clicks-when_none false n h = refl
