-- ===== src/View/Styles/Once.antt =====
-- No element is added to the head twice.
use Prim.Native.String.{String}
use mathlib.Core.Path.{◌≡◌, refl}
use mathlib.Core.Logic.{inl, inr}
use mathlib.Core.Bool.{false, ◌||◌}
use mathlib.Core.List.{List, [], ◌∷◌, ◌++◌}
use native.Mathlib.Omega.{arith}
use text.Mathlib.Text.{◌==◌}
use text.Mathlib.TextEquality.{eq_iff}
use ai_with_mafia.Common.Tests.{Bool-cases}
use ai_with_mafia.Common.Lists.{any}
use ai_with_mafia.View.Styles.{
  HeadElement, keyframes_style, fonts_link, lobby_style, waiting_room_style, game_room_style,
  chat_input_style, has_id, inject, Mounted, landing_page, lobby_page, waiting_room, game_room,
  chat_input, mount, mount_all,
}

abbrev pub HasUniqueIds : List HeadElement → Type 0
HasUniqueIds [] = Unit
HasUniqueIds (e ∷ es) = (has_id e.id es ≡ false) × HasUniqueIds es

has_id-concat :
    (id : String) (es : List HeadElement) (e : HeadElement)
    → has_id id (es ++ e ∷ []) ≡ (has_id id es || e.id == id)
unfolding any
has_id-concat id [] e = ground arith
has_id-concat id (d ∷ es) e = ground (arith, has_id-concat id es e)

concat-HasUniqueIds :
    (es : List HeadElement) (e : HeadElement)
    → has_id e.id es ≡ false
    → HasUniqueIds es
    → HasUniqueIds (es ++ e ∷ [])
unfolding any
concat-HasUniqueIds [] e h u = (refl, tt)
concat-HasUniqueIds (d ∷ es) e h u = (
  ground (arith, has_id-concat d.id es e, eq_iff d.id e.id, eq_iff e.id d.id),
  concat-HasUniqueIds es e (ground (arith, h)) u.1,
)

inject-HasUniqueIds :
    (e : HeadElement) (head : List HeadElement) → HasUniqueIds head → HasUniqueIds (inject e head)
unfolding inject
inject-HasUniqueIds e head u = elim (Bool-cases (has_id e.id head)) [
  | inl there ↦ rw there u
  | inr new ↦ rw new (concat-HasUniqueIds head e new u)
]

mount-HasUniqueIds :
    (c : Mounted) (head : List HeadElement) → HasUniqueIds head → HasUniqueIds (mount c head)
unfolding mount
mount-HasUniqueIds landing_page head u =
    inject-HasUniqueIds fonts_link _ (inject-HasUniqueIds keyframes_style head u)
mount-HasUniqueIds lobby_page head u = inject-HasUniqueIds lobby_style head u
mount-HasUniqueIds waiting_room head u = inject-HasUniqueIds waiting_room_style head u
mount-HasUniqueIds game_room head u = inject-HasUniqueIds game_room_style head u
mount-HasUniqueIds chat_input head u = inject-HasUniqueIds chat_input_style head u

-- However often and in whatever order the components are mounted, no two elements that they add to
-- an empty head have the same id.
mount_all-HasUniqueIds :
    (cs : List Mounted) (head : List HeadElement)
    → HasUniqueIds head
    → HasUniqueIds (mount_all cs head)
unfolding mount_all
mount_all-HasUniqueIds [] head u = u
mount_all-HasUniqueIds (c ∷ cs) head u =
    mount_all-HasUniqueIds cs (mount c head) (mount-HasUniqueIds c head u)
