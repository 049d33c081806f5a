-- ===== src/Gui/Widgets.antt =====
-- source/src/gui: a tree of widgets, composite widgets and windows. The parent of each widget is the one
-- whose `children` hold it; the calls of GetFocus along the parents are the Boolean results.
pub mod Placed
pub mod Kept
pub mod Shown
pub mod Virtual
mod Tests
use implementing_os_and_syst.Base.{
  ℕ, zero, suc, ◌+◌, ◌-◌, ◌*◌, Bool, true, false, ◌==◌, Option, none, some, List, [], ◌∷◌,
  if◌then◌else◌,
}
use implementing_os_and_syst.Gui.{Frame, contains_coordinate, plus, minus, refocus, is_some}
use implementing_os_and_syst.Drivers.Vga.{
  frame_buffer_segment, color_index, put_pixel, fill_rectangle,
}

-- The fields of a Widget, less `parent`.
pub record Look : Type 0 where
  pub frame : Frame
  pub r : ℕ
  pub g : ℕ
  pub b : ℕ
  pub focussable : Bool

-- Widget::Widget.
abbrev pub new_widget : ℕ → ℕ → ℕ → ℕ → ℕ → ℕ → ℕ → Look
new_widget x y w h r g b = record {
  frame = record { x = x; y = y; w = w; h = h };
  r = r;
  g = g;
  b = b;
  focussable = true;
}

-- The class of a composite widget, with what a Window adds to it, `Dragging`.
pub data Class : Type 0 where
  plain : Class
  window : Bool → Class

-- Window::OnMouseDown sets `Dragging` before it calls that of CompositeWidget.
abbrev pub press : Class → ℕ → Class
press plain button = plain
press (window dragging) button = window (button == 1)

mutual
  pub data Widget : Type 0 where
    leaf : Look → Widget
    composite : Class → Option ℕ → Look → Widgets → Widget

  -- `children`, from index 0 on.
  pub data Widgets : Type 0 where
    nil : Widgets
    cons : Widget → Widgets → Widgets

-- CompositeWidget::CompositeWidget and Window::Window.
abbrev pub new_composite : ℕ → ℕ → ℕ → ℕ → ℕ → ℕ → ℕ → Widget
new_composite x y w h r g b = composite plain none (new_widget x y w h r g b) nil

abbrev pub new_window : ℕ → ℕ → ℕ → ℕ → ℕ → ℕ → ℕ → Widget
new_window x y w h r g b = composite (window false) none (new_widget x y w h r g b) nil

abbrev pub look : Widget → Look
look (leaf a) = a
look (composite k focus a cs) = a

-- ContainsCoordinate, in the coordinates of the parent.
abbrev pub contains : ℕ → ℕ → Widget → Bool
contains x y c = contains_coordinate (look c).frame x y

-- ModelToScreen of a widget: its frame is the first of the list, its parents' follow.
unfoldable pub model_to_screen : List Frame → ℕ × ℕ → ℕ × ℕ
model_to_screen [] p = p
model_to_screen (f ∷ parents) p = let q = model_to_screen parents p in (plus q.0 f.x, plus q.1 f.y)

-- Widget::Draw.
unfoldable pub draw_widget : ℕ → List Frame → Look → (ℕ → ℕ) → ℕ → ℕ
draw_widget gc parents a mem =
    let p = model_to_screen (a.frame ∷ parents) (0, 0) in
    fill_rectangle gc p.0 p.1 a.frame.w a.frame.h a.r a.g a.b mem

-- Draw, and the loop of CompositeWidget::Draw, which goes down from the last child.
unfoldable mutual
  pub draw : ℕ → List Frame → Widget → (ℕ → ℕ) → ℕ → ℕ
  draw gc parents (leaf a) mem = draw_widget gc parents a mem
  draw gc parents (composite k focus a cs) mem =
      draw_all gc (a.frame ∷ parents) cs (draw_widget gc parents a mem)

  pub draw_all : ℕ → List Frame → Widgets → (ℕ → ℕ) → ℕ → ℕ
  draw_all gc parents nil mem = mem
  draw_all gc parents (cons c cs) mem = draw gc parents c (draw_all gc parents cs mem)

-- The index of a child, counted from the child before.
abbrev pub next : Option ℕ → Option ℕ
next none = none
next (some i) = some (suc i)

-- OnMouseDown, and the loop of CompositeWidget::OnMouseDown, in the coordinates of the parent. The second
-- result says whether the widget calls GetFocus of its parent, and which child of the loop does.
unfoldable mutual
  pub mouse_down : ℕ → ℕ → ℕ → Widget → Widget × Bool
  mouse_down x y button (leaf a) = (leaf a, a.focussable)
  mouse_down x y button (composite k focus a cs) =
      let r = down_in (minus x a.frame.x) (minus y a.frame.y) button cs in
      (composite (press k button) (refocus r.1 focus) a r.0, is_some r.1)

  pub down_in : ℕ → ℕ → ℕ → Widgets → Widgets × Option ℕ
  down_in x y button nil = (nil, none)
  down_in x y button (cons c cs) =
      let d = mouse_down x y button c in
      let rest = down_in x y button cs in
      if contains x y c
      then (cons d.0 cs, if d.1 then some 0 else none)
      else (cons c rest.0, next rest.1)

-- The widget at which OnKeyDown and OnKeyUp of a tree end: each composite widget calls that of its
-- `focussedChild`.
unfoldable mutual
  pub key_target : Widget → Option Look
  key_target (leaf a) = some a
  key_target (composite k none a cs) = none
  key_target (composite k (some i) a cs) = key_target_at i cs

  pub key_target_at : ℕ → Widgets → Option Look
  key_target_at i nil = none
  key_target_at zero (cons c cs) = key_target c
  key_target_at (suc i) (cons c cs) = key_target_at i cs

-- A step of the loop of Desktop::Draw: the four pixels at distance `i` of the mouse.
abbrev pub draw_cross : ℕ → ℕ → ℕ → ℕ → (ℕ → ℕ) → ℕ → ℕ
draw_cross gc x y i mem =
    let put = put_pixel (frame_buffer_segment gc) in
    let white = color_index 0xFF 0xFF 0xFF in
    put x (plus y i) white
      (put x (minus y i) white (put (plus x i) y white (put (minus x i) y white mem)))

-- Desktop::Draw, for a mouse at (`x`, `y`).
pub draw_desktop : ℕ → ℕ → ℕ → Widget → (ℕ → ℕ) → ℕ → ℕ
draw_desktop gc x y w mem =
    draw_cross gc x y 3
      (draw_cross gc x y 2 (draw_cross gc x y 1 (draw_cross gc x y 0 (draw gc [] w mem))))
