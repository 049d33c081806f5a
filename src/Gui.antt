-- ===== src/Gui.antt =====
-- source/src/gui: CompositeWidget of widget.cpp, window.cpp and desktop.cpp. Coordinates are `int32_t`
-- patterns. A child is of any class: its virtual functions are the record `Child`.
pub mod Hits
pub mod Desktop
pub mod Bounds
pub mod Widgets
mod Tests
use implementing_os_and_syst.Base.{
  ℕ, zero, suc, ◌+◌, ◌-◌, ◌*◌, ◌/◌, ◌%◌, ◌^◌, Bool, true, false, not, ◌&&◌, Option, none, some,
  List, [], ◌∷◌, ◌++◌, length, ltb, leb, ◌==◌, if◌then◌else◌,
}
use implementing_os_and_syst.Machine.{word_mod, signed_lt}

abbrev pub plus : ℕ → ℕ → ℕ
plus a b = (a + b) % word_mod

abbrev pub minus : ℕ → ℕ → ℕ
minus a b = (a + word_mod - b) % word_mod

-- `x`, `y`, `w` and `h` of a widget.
pub record Frame : Type 0 where
  pub x : ℕ
  pub y : ℕ
  pub w : ℕ
  pub h : ℕ

-- Widget::ContainsCoordinate.
unfoldable pub contains_coordinate : Frame → ℕ → ℕ → Bool
contains_coordinate f x y =
    not (signed_lt x f.x)
    && signed_lt x (plus f.x f.w)
    && not (signed_lt y f.y)
    && signed_lt y (plus f.y f.h)

-- The virtual functions of a child. OnMouseDown also says whether the child asked for the focus, by a
-- call of GetFocus of its parent.
pub record Child (C : Type 0) : Type 0 where
  pub contains : ℕ → ℕ → C → Bool
  pub mouse_down : ℕ → ℕ → ℕ → C → C × Bool
  pub mouse_up : ℕ → ℕ → ℕ → C → C
  pub mouse_move : ℕ → ℕ → ℕ → ℕ → C → C
  pub key_down : ℕ → C → C
  pub key_up : ℕ → C → C

-- `focussedChild` is the index of the child, or null.
pub record CompositeWidget (C : Type 0) : Type 0 where
  pub frame : Frame
  pub focussed_child : Option ℕ
  pub children : List C

pub record Window (C : Type 0) : Type 0 where
  pub composite : CompositeWidget C
  pub dragging : Bool

abbrev pub refocus : Option ℕ → Option ℕ → Option ℕ
refocus none old = old
refocus (some i) old = some i

abbrev pub is_some : Option ℕ → Bool
is_some none = false
is_some (some i) = true

abbrev pub is_index : Option ℕ → ℕ → Bool
is_index none i = false
is_index (some j) i = j == i

module _ {C : Type 0} where
  -- CompositeWidget::AddChild.
  unfoldable pub add_child : C → CompositeWidget C → Bool × CompositeWidget C
  add_child c s =
      if leb 100 (length s.children)
      then (false, s)
      else (true, record s { children = s.children ++ c ∷ [] })

  -- The children in the order of the calls of Draw, from the last index down to the first.
  pub draw_children : List C → List C
  draw_children [] = []
  draw_children (c ∷ cs) = draw_children cs ++ c ∷ []

  pub update_child : ℕ → (C → C) → List C → List C
  update_child i f [] = []
  update_child zero f (c ∷ cs) = f c ∷ cs
  update_child (suc i) f (c ∷ cs) = c ∷ update_child i f cs

module _ {C : Type 0} (child : Child C) where
  -- The loop of OnMouseDown from index `i` on; the second result is the child that asked for the focus.
  unfoldable pub down_first : ℕ → ℕ → ℕ → ℕ → List C → List C × Option ℕ
  down_first i x y button [] = ([], none)
  down_first i x y button (c ∷ cs) =
      let d = child.mouse_down x y button c in
      let rest = down_first (i + 1) x y button cs in
      if child.contains x y c
      then (d.0 ∷ cs, if d.1 then some i else none)
      else (c ∷ rest.0, rest.1)

  -- CompositeWidget::OnMouseDown, with the GetFocus that it may lead to: the widget notes the child,
  -- and asks its own parent.
  unfoldable pub on_mouse_down : ℕ → ℕ → ℕ → CompositeWidget C → CompositeWidget C × Bool
  on_mouse_down x y button s =
      let r = down_first 0 (minus x s.frame.x) (minus y s.frame.y) button s.children in
      (record s { children = r.0; focussed_child = refocus r.1 s.focussed_child }, is_some r.1)

  pub up_first : ℕ → ℕ → ℕ → List C → List C
  up_first x y button [] = []
  up_first x y button (c ∷ cs) =
      let rest = up_first x y button cs in
      if child.contains x y c then child.mouse_up x y button c ∷ cs else c ∷ rest

  -- CompositeWidget::OnMouseUp.
  pub on_mouse_up : ℕ → ℕ → ℕ → CompositeWidget C → CompositeWidget C
  on_mouse_up x y button s = record s {
    children = up_first (minus x s.frame.x) (minus y s.frame.y) button s.children;
  }

  -- A loop of OnMouseMove, from index `i` on: the first child that contains (`x`, `y`) is moved over
  -- by `move`, unless it is the child at `skip`.
  pub move_first : Option ℕ → ℕ → ℕ → (C → C) → ℕ → List C → List C × Option ℕ
  move_first skip x y move i [] = ([], none)
  move_first skip x y move i (c ∷ cs) =
      let rest = move_first skip x y move (i + 1) cs in
      if child.contains x y c
      then ((if is_index skip i then c else move c) ∷ cs, some i)
      else (c ∷ rest.0, rest.1)

  -- CompositeWidget::OnMouseMove.
  unfoldable pub on_mouse_move : ℕ → ℕ → ℕ → ℕ → CompositeWidget C → CompositeWidget C
  on_mouse_move oldx oldy newx newy s =
      let ox = minus oldx s.frame.x in
      let oy = minus oldy s.frame.y in
      let nx = minus newx s.frame.x in
      let ny = minus newy s.frame.y in
      let move = child.mouse_move ox oy nx ny in
      let r = move_first none ox oy move 0 s.children in
      record s { children = (move_first r.1 nx ny move 0 r.0).0 }

  -- CompositeWidget::OnKeyDown and OnKeyUp.
  pub on_key_down : ℕ → CompositeWidget C → CompositeWidget C
  on_key_down key s = elim s.focussed_child [
    | none ↦ s
    | some i ↦ record s { children = update_child i (child.key_down key) s.children }
  ]

  pub on_key_up : ℕ → CompositeWidget C → CompositeWidget C
  on_key_up key s = elim s.focussed_child [
    | none ↦ s
    | some i ↦ record s { children = update_child i (child.key_up key) s.children }
  ]

  -- Window::OnMouseDown, OnMouseUp and OnMouseMove.
  pub window_mouse_down : ℕ → ℕ → ℕ → Window C → Window C × Bool
  unfolding on_mouse_down
  window_mouse_down x y button s =
      let r = on_mouse_down x y button s.composite in
      (record { composite = r.0; dragging = button == 1 }, r.1)

  pub window_mouse_up : ℕ → ℕ → ℕ → Window C → Window C
  unfolding on_mouse_up
  window_mouse_up x y button s = record {
    composite = on_mouse_up x y button s.composite;
    dragging = false;
  }

  abbrev pub shift : ℕ → ℕ → ℕ → ℕ → Frame → Frame
  shift oldx oldy newx newy f = record f {
    x = plus f.x (minus newx oldx);
    y = plus f.y (minus newy oldy);
  }

  pub window_mouse_move : ℕ → ℕ → ℕ → ℕ → Window C → Window C
  unfolding on_mouse_move
  window_mouse_move oldx oldy newx newy s =
      let c =
        if s.dragging
        then record s.composite { frame = shift oldx oldy newx newy s.composite.frame }
        else s.composite in
      record s { composite = on_mouse_move oldx oldy newx newy c }
