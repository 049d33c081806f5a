-- ===== src/Gui/Hits.antt =====
-- Which child of a CompositeWidget a mouse button reaches.
use implementing_os_and_syst.Base.{
  ℕ, suc, ◌+◌, ◌≡◌, refl, sym, ap, ◌∙◌, ◌⊎◌, inl, inr, Bool, true, false, Bool-cases, Option, none,
  some, List, [], ◌∷◌, ◌++◌, length, All, ◌==◌, append_assoc, append-nil, if◌then◌else◌, arith,
}
use implementing_os_and_syst.Gui.{
  Child, CompositeWidget, minus, down_first, refocus, is_some, on_mouse_down, draw_children, Window,
  window_mouse_down, window_mouse_up, window_mouse_move, shift,
}

-- `c` is the first of the children `cs` that contains the point, `front` stand before it and `back`
-- behind it.
pub record Hit {C : Type 0} (child : Child C) (x y : ℕ) (cs front : List C) (c : C) (back : List C)
    : Type 0 where
  pub split : cs ≡ front ++ c ∷ back
  pub outside : All (λ d. child.contains x y d ≡ false) front
  pub inside : child.contains x y c ≡ true

draw_children-append :
    {C : Type 0}
    → (xs ys : List C) → draw_children (xs ++ ys) ≡ draw_children ys ++ draw_children xs
unfolding draw_children
draw_children-append [] ys = sym (append-nil (draw_children ys))
draw_children-append (x ∷ xs) ys =
    ap (λ l. l ++ x ∷ []) (draw_children-append xs ys)
    ∙ append_assoc (draw_children ys) (draw_children xs) (x ∷ [])

refocus_lem :
    (asks : Bool) (k : ℕ) (old : Option ℕ)
    → (refocus (if asks then some (0 + k) else none) old ≡ (if asks then some k else old))
      × (is_some (if asks then some (0 + k) else none) ≡ asks)
refocus_lem true k old = (ap (λ (i : ℕ). some i) (omega arith), refl)
refocus_lem false k old = (refl, refl)

index_here : (i : ℕ) → i ≡ i + 0
index_here i = omega arith

index_behind : (i k : ℕ) → i + 1 + k ≡ i + suc k
index_behind i k = omega arith

module _ {C : Type 0} (child : Child C) where
  abbrev pub Outside : ℕ → ℕ → List C → Type 0
  Outside x y cs = All (λ d. child.contains x y d ≡ false) cs

  down_first_lem :
      (i x y button : ℕ) (cs : List C)
      → (Outside x y cs × (down_first child i x y button cs ≡ (cs, none)))
        ⊎ ((front : List C) × (c : C) × (back : List C) × Hit child x y cs front c back
            × (down_first child i x y button cs ≡ (
              front ++ (child.mouse_down x y button c).0 ∷ back,
              if (child.mouse_down x y button c).1 then some (i + length front) else none,
            )))
  unfolding down_first
  down_first_lem i x y button [] = inl (tt, refl)
  down_first_lem i x y button (c ∷ cs) = elim (Bool-cases (child.contains x y c)) [
    | inl t ↦ inr (
      [],
      c,
      cs,
      record { split = refl; outside = tt; inside = t },
      rw t (
          ap
            (λ (k : ℕ). (
              (child.mouse_down x y button c).0 ∷ cs,
              if (child.mouse_down x y button c).1 then some k else none,
            ))
            (index_here i)),
    )
    | inr f ↦ elim (down_first_lem (i + 1) x y button cs) [
      | inl (o, e) ↦ inl ((f, o), rw f (ap (λ (r : List C × Option ℕ). (c ∷ r.0, r.1)) e))
      | inr (front, d, back, h, e) ↦ inr (
        c ∷ front,
        d,
        back,
        record { split = ap (λ l. c ∷ l) h.split; outside = (f, h.outside); inside = h.inside },
        rw f (
            ap (λ (r : List C × Option ℕ). (c ∷ r.0, r.1)) e
            ∙ ap
                (λ (k : ℕ). (
                  c ∷ (front ++ (child.mouse_down x y button d).0 ∷ back),
                  if (child.mouse_down x y button d).1 then some k else none,
                ))
                (index_behind i (length front))),
      )
    ]
  ]

  -- OnMouseDown reaches no child when none contains the point, and then changes nothing; otherwise it
  -- reaches only the first child that contains it, which is the one drawn last of those that do, and the
  -- focus goes to that child and is asked of the parent exactly if the child asks for it.
  pub on_mouse_down_lem :
      (x y button : ℕ) (s : CompositeWidget C)
      → let px = minus x s.frame.x in
        let py = minus y s.frame.y in
        (Outside px py s.children × (on_mouse_down child x y button s ≡ (s, false)))
        ⊎ ((front : List C) × (c : C) × (back : List C) × Hit child px py s.children front c back
            × (draw_children s.children ≡ draw_children back ++ c ∷ draw_children front)
            × ((on_mouse_down child x y button s).0.children
                ≡ front ++ (child.mouse_down px py button c).0 ∷ back)
            × ((on_mouse_down child x y button s).0.focussed_child ≡ (
                if (child.mouse_down px py button c).1
                then some (length front)
                else s.focussed_child))
            × ((on_mouse_down child x y button s).1 ≡ (child.mouse_down px py button c).1))
  unfolding on_mouse_down draw_children
  on_mouse_down_lem x y button s =
      elim (down_first_lem 0 (minus x s.frame.x) (minus y s.frame.y) button s.children) [
        | inl (o, e) ↦ inl (o, rw e refl)
        | inr (front, c, back, h, e) ↦
            let d = child.mouse_down (minus x s.frame.x) (minus y s.frame.y) button c in
            let f = refocus_lem d.1 (length front) s.focussed_child in
            inr (
              front,
              c,
              back,
              h,
              ap draw_children h.split
                  ∙ draw_children-append front (c ∷ back)
                  ∙ append_assoc (draw_children back) (c ∷ []) (draw_children front),
              ap (λ (r : List C × Option ℕ). r.0) e,
              ap (λ (r : List C × Option ℕ). refocus r.1 s.focussed_child) e ∙ f.0,
              ap (λ (r : List C × Option ℕ). is_some r.1) e ∙ f.1,
            )
      ]

  -- A window that is pressed with the first button follows the mouse by the offset of each move until a
  -- button is released; pressed with another button it stays where it is.
  pub drag_lem :
      (x y button oldx oldy newx newy : ℕ) (s : Window C)
      → let pressed = (window_mouse_down child x y button s).0 in
        let moved = window_mouse_move child oldx oldy newx newy pressed in
        let released = window_mouse_up child newx newy button moved in
        (moved.composite.frame ≡ (
          if button == 1
          then shift child oldx oldy newx newy s.composite.frame
          else s.composite.frame))
        × (moved.dragging ≡ (button == 1))
        × (released.composite.frame ≡ moved.composite.frame)
        × ((window_mouse_move child oldx oldy newx newy released).composite.frame
            ≡ moved.composite.frame)
  unfolding window_mouse_down window_mouse_move window_mouse_up
  drag_lem x y button oldx oldy newx newy s = elim (Bool-cases (button == 1)) [
    | inl t ↦ rw t (refl, refl, refl, refl)
    | inr f ↦ rw f (refl, refl, refl, refl)
  ]
