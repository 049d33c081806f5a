-- ===== src/Gui/Desktop.antt =====
-- source/src/gui/desktop.cpp: the Desktop, with the position of the mouse on it.
use implementing_os_and_syst.Base.{ℕ, ◌-◌, ◌/◌, ◌%◌, ◌^◌, none, [], ltb, if◌then◌else◌}
use implementing_os_and_syst.Machine.{word_mod, signed_lt}
use implementing_os_and_syst.Gui.{
  Child, CompositeWidget, plus, minus, on_mouse_down, on_mouse_up, on_mouse_move,
}

pub record Desktop (C : Type 0) : Type 0 where
  pub composite : CompositeWidget C
  pub mouse_x : ℕ
  pub mouse_y : ℕ

-- `a / 4` on an `int`, towards zero.
abbrev pub quarter : ℕ → ℕ
quarter a = if ltb a (2 ^ 31) then a / 4 else (word_mod - (word_mod - a) / 4) % word_mod

-- `v + d`, moved into the range from 0 to `bound - 1`.
unfoldable pub clamp : ℕ → ℕ → ℕ → ℕ
clamp v d bound =
    let n = plus v d in
    let n' = if signed_lt n 0 then 0 else n in if signed_lt n' bound then n' else minus bound 1

module _ {C : Type 0} (child : Child C) where
  -- Desktop::Desktop, for a width and a height that are not negative.
  unfoldable pub desktop : ℕ → ℕ → Desktop C
  desktop w h = record {
    composite = record {
      frame = record { x = 0; y = 0; w = w; h = h };
      focussed_child = none;
      children = [];
    };
    mouse_x = w / 2;
    mouse_y = h / 2;
  }

  pub desktop_mouse_down : ℕ → Desktop C → Desktop C
  desktop_mouse_down button s = record s {
    composite = (on_mouse_down child s.mouse_x s.mouse_y button s.composite).0;
  }

  pub desktop_mouse_up : ℕ → Desktop C → Desktop C
  desktop_mouse_up button s = record s {
    composite = on_mouse_up child s.mouse_x s.mouse_y button s.composite;
  }

  -- Desktop::OnMouseMove.
  unfoldable pub desktop_mouse_move : ℕ → ℕ → Desktop C → Desktop C
  desktop_mouse_move x y s =
      let x' = clamp s.mouse_x (quarter x) s.composite.frame.w in
      let y' = clamp s.mouse_y (quarter y) s.composite.frame.h in
      record {
        composite = on_mouse_move child s.mouse_x s.mouse_y x' y' s.composite;
        mouse_x = x';
        mouse_y = y';
      }
