-- ===== src/Gui/Bounds.antt =====
-- The mouse position of the Desktop.
use implementing_os_and_syst.Base.{ℕ, ◌^◌, ◌<◌, arith}
use implementing_os_and_syst.Gui.{Child, on_mouse_move}
use implementing_os_and_syst.Gui.Desktop.{Desktop, clamp, quarter, desktop, desktop_mouse_move}

-- The desktop has a width and a height, and the mouse is on it.
pub record IsOnDesktop {C : Type 0} (s : Desktop C) : Type 0 where
  pub wide : (0 < s.composite.frame.w) × (s.composite.frame.w < 2 ^ 31)
  pub high : (0 < s.composite.frame.h) × (s.composite.frame.h < 2 ^ 31)
  pub across : s.mouse_x < s.composite.frame.w
  pub down : s.mouse_y < s.composite.frame.h

clamp_small : (v d bound : ℕ) → 0 < bound → bound < 2 ^ 31 → clamp v d bound < bound
unfolding clamp
clamp_small v d bound p q = ground arith

module _ {C : Type 0} (child : Child C) where
  -- The constructor puts the mouse on the desktop.
  pub desktop-IsOnDesktop :
      (w h : ℕ) → 0 < w → w < 2 ^ 31 → 0 < h → h < 2 ^ 31 → IsOnDesktop (desktop child w h)
  unfolding desktop
  desktop-IsOnDesktop w h a b c d = record {
    wide = (a, b);
    high = (c, d);
    across = omega arith;
    down = omega arith;
  }

  -- Every move keeps the mouse on the desktop, whatever the offsets.
  pub desktop_mouse_move-IsOnDesktop :
      (x y : ℕ) (s : Desktop C) → IsOnDesktop s → IsOnDesktop (desktop_mouse_move child x y s)
  unfolding desktop_mouse_move on_mouse_move
  desktop_mouse_move-IsOnDesktop x y s v = record {
    wide = v.wide;
    high = v.high;
    across = clamp_small s.mouse_x (quarter x) s.composite.frame.w v.wide.0 v.wide.1;
    down = clamp_small s.mouse_y (quarter y) s.composite.frame.h v.high.0 v.high.1;
  }
