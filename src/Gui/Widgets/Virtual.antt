-- ===== src/Gui/Widgets/Virtual.antt =====
-- The tree as an instance of the virtual functions of a child: OnMouseDown of a composite widget in the tree
-- is on_mouse_down over the list of its children.
use implementing_os_and_syst.Base.{
  ℕ, ◌+◌, ◌≡◌, refl, ap, ◌∙◌, inl, inr, Bool, true, false, Bool-cases, Option, none, some, List, [],
  ◌∷◌, if◌then◌else◌, arith,
}
use implementing_os_and_syst.Gui.{
  Child, CompositeWidget, minus, refocus, is_some, down_first, on_mouse_down,
}
use implementing_os_and_syst.Gui.Widgets.{
  Class, Look, Widget, composite, Widgets, nil, cons, contains, mouse_down, down_in, next, press,
}

unfoldable pub to_list : Widgets → List Widget
to_list nil = []
to_list (cons c cs) = c ∷ to_list cs

-- A composite widget of the tree as the record of Gui.
abbrev pub as_composite : Option ℕ → Look → Widgets → CompositeWidget Widget
as_composite focus a cs = record { frame = a.frame; focussed_child = focus; children = to_list cs }

-- The index `i + k` of a child that a loop from `i` on gives.
abbrev from : ℕ → Option ℕ → Option ℕ
from i none = none
from i (some k) = some (i + k)

-- `child` has the virtual functions of the tree where OnMouseDown calls them.
pub record IsTree (child : Child Widget) : Type 0 where
  pub contains_is : (x y : ℕ) (c : Widget) → child.contains x y c ≡ contains x y c
  pub mouse_down_is :
      (x y button : ℕ) (c : Widget) → child.mouse_down x y button c ≡ mouse_down x y button c

from_zero : (o : Option ℕ) → from 0 o ≡ o
from_zero none = refl
from_zero (some k) = ap (λ (n : ℕ). some n) (omega arith)

from_next : (i : ℕ) (o : Option ℕ) → from (i + 1) o ≡ from i (next o)
from_next i none = refl
from_next i (some k) = ap (λ (n : ℕ). some n) (omega arith)

from_here :
    (i : ℕ) (b : Bool)
    → ◌≡◌ {A = Option ℕ} (if b then some i else none) (from i (if b then some 0 else none))
from_here i true = ap (λ (n : ℕ). some n) (omega arith)
from_here i false = refl

module _ (child : Child Widget) (v : IsTree child) where
  down_first-down_in :
      (i x y button : ℕ) (cs : Widgets)
      → let r = down_in x y button cs in
        down_first child i x y button (to_list cs) ≡ (to_list r.0, from i r.1)
  unfolding down_first mouse_down to_list
  down_first-down_in i x y button nil = refl
  down_first-down_in i x y button (cons c cs) = elim (Bool-cases (contains x y c)) [
    | inl t ↦
        rw (v.contains_is x y c, v.mouse_down_is x y button c, t)
          (ap (λ (o : Option ℕ). ((mouse_down x y button c).0 ∷ to_list cs, o))
            (from_here i (mouse_down x y button c).1))
    | inr t ↦
        rw (v.contains_is x y c, v.mouse_down_is x y button c, t)
          (ap (λ (r : List Widget × Option ℕ). (c ∷ r.0, r.1))
              (down_first-down_in (i + 1) x y button cs)
            ∙ ap (λ (o : Option ℕ). (c ∷ to_list (down_in x y button cs).0, o))
                (from_next i (down_in x y button cs).1))
  ]

  pub mouse_down-on_mouse_down :
      (x y button : ℕ) (k : Class) (focus : Option ℕ) (a : Look) (cs : Widgets)
      → let r = down_in (minus x a.frame.x) (minus y a.frame.y) button cs in
        (mouse_down x y button (composite k focus a cs)
          ≡ (composite (press k button) (refocus r.1 focus) a r.0, is_some r.1))
        × (on_mouse_down child x y button (as_composite focus a cs)
            ≡ (as_composite (refocus r.1 focus) a r.0, is_some r.1))
  unfolding on_mouse_down mouse_down
  mouse_down-on_mouse_down x y button k focus a cs = (
    refl,
    rw
        (
          down_first-down_in 0 (minus x a.frame.x) (minus y a.frame.y) button cs,
          from_zero (down_in (minus x a.frame.x) (minus y a.frame.y) button cs).1,
        )
        refl,
  )
