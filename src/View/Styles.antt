-- ===== src/View/Styles.antt =====
-- What the pages add to the head of the document, once each: `injectCSS` in
-- frontend/src/pages/LobbyPage.tsx and in the components WaitingRoom.tsx, GameRoom.tsx and
-- ChatInput.tsx, and two effects of pages/LandingPage.tsx.
pub mod Once
pub mod Texts
use Prim.Native.String.{String}
use mathlib.Core.Bool.{Bool, true, false}
use mathlib.Core.List.{List, [], ◌∷◌, ◌++◌}
use text.Mathlib.Text.{◌==◌}
use ai_with_mafia.Common.Tests.{if◌then◌else◌}
use ai_with_mafia.Common.Lists.{any}
use ai_with_mafia.View.Styles.Texts.{
  keyframes, lobby_css, waiting_room_css, game_room_css, chat_input_css,
}

-- A style sheet by its lines, or a link by its address.
pub data Content : Type 0 where
  style_text : List String → Content
  link_to : String → Content

-- An element of the head, by its id. No element outside the head has one of these ids.
pub record HeadElement : Type 0 where
  pub id : String
  pub content : Content

abbrev pub keyframes_style : HeadElement
keyframes_style = record { id = "case-file-keyframes"; content = style_text keyframes }

abbrev pub fonts_link : HeadElement
fonts_link = record {
  id = "case-file-fonts";
  content =
      link_to
        "https://fonts.googleapis.com/css2?family=Instrument+Serif:ital@0;1&family=DM+Sans:ital,opsz,wght@0,9..40,300;0,9..40,400;0,9..40,500;0,9..40,600;1,9..40,300&family=JetBrains+Mono:wght@400;500&display=swap";
}

abbrev pub lobby_style : HeadElement
lobby_style = record { id = "case-file-lobby-css"; content = style_text lobby_css }

abbrev pub waiting_room_style : HeadElement
waiting_room_style = record { id = "case-file-waiting-css"; content = style_text waiting_room_css }

abbrev pub game_room_style : HeadElement
game_room_style = record { id = "case-file-gameroom-css"; content = style_text game_room_css }

abbrev pub chat_input_style : HeadElement
chat_input_style = record { id = "case-file-chatinput-css"; content = style_text chat_input_css }

-- `document.getElementById(id)` finds an element.
abbrev pub has_id : String → List HeadElement → Bool
has_id id = any (λ e. e.id == id)

unfoldable pub inject : HeadElement → List HeadElement → List HeadElement
unfolding any
inject e head = if has_id e.id head then head else head ++ e ∷ []

-- The components that inject something, as they are mounted.
pub data Mounted : Type 0 where
  landing_page lobby_page waiting_room game_room chat_input : Mounted

unfoldable pub mount : Mounted → List HeadElement → List HeadElement
unfolding inject
mount landing_page head = inject fonts_link (inject keyframes_style head)
mount lobby_page head = inject lobby_style head
mount waiting_room head = inject waiting_room_style head
mount game_room head = inject game_room_style head
mount chat_input head = inject chat_input_style head

unfoldable pub mount_all : List Mounted → List HeadElement → List HeadElement
unfolding mount
mount_all [] head = head
mount_all (c ∷ cs) head = mount_all cs (mount c head)
