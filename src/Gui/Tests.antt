-- ===== src/Gui/Tests.antt =====
-- A desktop with two children that remember how often they were pressed.
use implementing_os_and_syst.Base.{ℕ, ◌+◌, ◌≡◌, refl, true, none, [], ◌∷◌}
use implementing_os_and_syst.Gui.{
  Frame, Child, CompositeWidget, contains_coordinate, on_mouse_down, down_first,
}

abbrev box : ℕ → Frame
box left = record { x = left; y = 10; w = 20; h = 20 }

-- A child: where it begins, and how often it was pressed.
abbrev button : Child (ℕ × ℕ)
button = record {
  contains = λ x y c. contains_coordinate (box c.0) x y;
  mouse_down = λ x y b c. ((c.0, c.1 + 1), true);
  mouse_up = λ x y b c. c;
  mouse_move = λ ox oy nx ny c. c;
  key_down = λ k c. c;
  key_up = λ k c. c;
}

abbrev panel : CompositeWidget (ℕ × ℕ)
panel = record {
  frame = record { x = 0; y = 0; w = 320; h = 200 };
  focussed_child = none;
  children = (10, 0) ∷ (25, 0) ∷ (100, 0) ∷ [];
}

press_overlap : (on_mouse_down button 27 15 1 panel).0.children ≡ (10, 1) ∷ (25, 0) ∷ (100, 0) ∷ []
unfolding on_mouse_down down_first contains_coordinate
press_overlap = refl
