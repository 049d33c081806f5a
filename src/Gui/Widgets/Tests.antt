-- ===== src/Gui/Widgets/Tests.antt =====
-- A desktop with a window that holds two buttons, of which the first covers a part of the second.
use implementing_os_and_syst.Base.{ℕ, ◌-◌, ◌^◌, ◌≡◌, ◌⊎◌, refl, true, false, none, some, [], arith}
use implementing_os_and_syst.Gui.{contains_coordinate}
use implementing_os_and_syst.Gui.Widgets.{
  Look, Widget, leaf, composite, plain, window, nil, cons, new_widget, draw, mouse_down, key_target,
}
use implementing_os_and_syst.Gui.Widgets.Placed.{IsLaidOut, pixel}
use implementing_os_and_syst.Gui.Widgets.Shown.{Focussed, draw-mouse_down}

abbrev red_button : Look
red_button = new_widget 5 5 20 10 0xA8 0 0

abbrev green_button : Look
green_button = new_widget 15 5 20 10 0 0xA8 0

abbrev desk : Widget
desk = composite plain none (new_widget 0 0 320 200 0 0 0xA8) (
    cons
      (composite (window false) none (new_widget 30 40 100 80 0xFF 0xFF 0xFF)
        (cons (leaf red_button) (cons (leaf green_button) nil)))
      nil)

desk-IsLaidOut : IsLaidOut (2 ^ 31 - 1) (2 ^ 31 - 1) desk
unfolding IsLaidOut
desk-IsLaidOut = (
  (omega arith, omega arith),
  (
    ((omega arith, omega arith), ((omega arith, omega arith), ((omega arith, omega arith), tt))),
    tt,
  ),
)

-- The point (52, 50) lies on both buttons.
press_red : key_target (mouse_down 52 50 1 desk).0 ≡ some red_button
unfolding key_target mouse_down contains_coordinate
press_red = refl

press_green : key_target (mouse_down 60 50 1 desk).0 ≡ some green_button
unfolding key_target mouse_down contains_coordinate
press_green = refl

abbrev blank : ℕ → ℕ
blank a = 0

draw-mouse_down_example :
    (((mouse_down 52 50 1 desk).1 ≡ false)
      × (key_target (mouse_down 52 50 1 desk).0 ≡ key_target desk))
    ⊎ (((mouse_down 52 50 1 desk).1 ≡ true)
        × Focussed (draw 5 [] desk blank (pixel 5 52 50)) (key_target (mouse_down 52 50 1 desk).0))
unfolding contains_coordinate
draw-mouse_down_example =
    draw-mouse_down 5 52 50 1 desk blank desk-IsLaidOut (omega arith) (omega arith) refl
