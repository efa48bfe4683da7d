-- ===== src/Landing/Glow.antt =====
-- The glow of LandingPage.tsx that follows the mouse. Numbers of the browser are a parameter, with
-- how two of them are divided, and how a part of the whole is printed in per cent.
use Prim.Native.String.{String, ◌++◌ as append}

-- `getBoundingClientRect()`
pub record Rect {ℓ} (Px : Type ℓ) : Type ℓ where
  pub left : Px
  pub top : Px
  pub width : Px
  pub height : Px

-- `mouseRef.current`, and the background of the glow.
pub record Glow {ℓ} (Px : Type ℓ) : Type ℓ where
  pub x : Px
  pub y : Px
  pub background : String

module _ {ℓ} {Px : Type ℓ} (minus divide : Px → Px → Px) (per_cent : Px → String) where
  unfoldable pub glow_at : Px → Px → String
  glow_at x y = append "radial-gradient(ellipse 55% 40% at " (
      append (per_cent x)
        (append "% " (append (per_cent y) "%, rgba(196,150,58,0.07) 0%, transparent 70%)")))

  -- `handleMouseMove`, at the mouse's position in the window. The element of the glow is there as
  -- long as the page is.
  unfoldable pub handle_mouse_move : Rect Px → Px → Px → Glow Px → Glow Px
  unfolding glow_at
  handle_mouse_move r client_x client_y g =
      let x = divide (minus client_x r.left) r.width in
      let y = divide (minus client_y r.top) r.height in
      record g { x = x; y = y; background = glow_at x y }
