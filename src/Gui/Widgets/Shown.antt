-- ===== src/Gui/Widgets/Shown.antt =====
-- What a tree of widgets shows at a pixel, and what a click there reaches.
use implementing_os_and_syst.Base.{
  ℕ, suc, ◌+◌, ◌-◌, ◌^◌, ◌<◌, ◌≡◌, refl, ◌∙◌, ◌⊎◌, inl, inr, true, false, Bool-cases, false≢true,
  Option, some, List, [], ◌∷◌, arith,
}
use implementing_os_and_syst.Gui.{Frame, minus, is_some}
use implementing_os_and_syst.Gui.Widgets.{
  Look, Widget, leaf, composite, Widgets, nil, cons, look, contains, model_to_screen, draw_widget,
  draw, draw_all, mouse_down, down_in, next, key_target, key_target_at,
}
use implementing_os_and_syst.Gui.Widgets.Placed.{
  Within, IsLaidOut, AreLaidOut, Placed, area, covers, color_of, pixel, Placed-child,
  draw_widget_lem, covers-contains, area-false, area_bounds, inner,
}
use implementing_os_and_syst.Gui.Widgets.Kept.{
  down_in-hit, down_in-miss, asks_here, asked, is_some-next, keep_lem,
}

laid_out-Within : (w h : ℕ) (c : Widget) → IsLaidOut w h c → Within w h (look c).frame
unfolding IsLaidOut
laid_out-Within w h (leaf a) q = q
laid_out-Within w h (composite k focus a cs) q = q.0

mutual
  unfolding draw IsLaidOut

  draw_outside :
      (gc : ℕ) (parents : List Frame) (w h x y px py : ℕ) (c : Widget) (mem : ℕ → ℕ)
      → Placed parents w h x y
      → IsLaidOut w h c
      → px < 320
      → py < 200
      → covers x y (look c).frame px py ≡ false
      → draw gc parents c mem (pixel gc px py) ≡ mem (pixel gc px py)
  draw_outside gc parents w h x y px py (leaf a) mem p q b d e =
      draw_widget_lem gc parents w h x y px py a mem p q b d ∙ rw e refl
  draw_outside gc parents w h x y px py (composite k focus a cs) mem p q b d e =
      draw_all_outside gc (a.frame ∷ parents) a.frame.w a.frame.h (x + a.frame.x) (y + a.frame.y) px
        py cs (draw_widget gc parents a mem) (Placed-child parents w h x y a.frame p q.0) q.1 b d e
      ∙ draw_widget_lem gc parents w h x y px py a mem p q.0 b d
      ∙ rw e refl

  draw_all_outside :
      (gc : ℕ) (parents : List Frame) (w h x y px py : ℕ) (cs : Widgets) (mem : ℕ → ℕ)
      → Placed parents w h x y
      → AreLaidOut w h cs
      → px < 320
      → py < 200
      → area x y w h px py ≡ false
      → draw_all gc parents cs mem (pixel gc px py) ≡ mem (pixel gc px py)
  draw_all_outside gc parents w h x y px py nil mem p q b d e = refl
  draw_all_outside gc parents w h x y px py (cons c cs) mem p q b d e =
      draw_outside gc parents w h x y px py c (draw_all gc parents cs mem) p q.0 b d
        (area-false x y w h px py (look c).frame (laid_out-Within w h c q.0) e)
      ∙ draw_all_outside gc parents w h x y px py cs mem p q.1 b d e

-- The pixel has the colour of `a` after `draw`, and the keys go to `a` after `mouse_down`.
pub record Focussed (shown : ℕ) (target : Option Look) : Type 0 where
  pub widget : Look
  pub color : shown ≡ color_of widget
  pub takes_keys : target ≡ some widget

-- The same of a loop over children, of which the one at `index` took the focus.
record FocussedIn (shown : ℕ) (r : Widgets × Option ℕ) : Type 0 where
  index : ℕ
  chosen : r.1 ≡ some index
  child : Focussed shown (key_target_at index r.0)

focussed_next :
    (shown : ℕ) (c : Widget) (r : Widgets × Option ℕ)
    → FocussedIn shown r
    → FocussedIn shown (cons c r.0, next r.1)
unfolding key_target
focussed_next shown c r f = record {
  index = suc f.index;
  chosen = rw f.chosen refl;
  child = f.child;
}

mutual
  unfolding mouse_down key_target draw IsLaidOut

  focus_lem :
      (gc : ℕ) (parents : List Frame) (w h x y lx ly px py button : ℕ) (c : Widget) (mem : ℕ → ℕ)
      → Placed parents w h x y
      → IsLaidOut w h c
      → (px < 320) × (py < 200)
      → (px ≡ x + lx) × (py ≡ y + ly)
      → (lx < w) × (ly < h)
      → contains lx ly c ≡ true
      → (mouse_down lx ly button c).1 ≡ true
      → Focussed (draw gc parents c mem (pixel gc px py)) (key_target (mouse_down lx ly button c).0)
  focus_lem gc parents w h x y lx ly px py button (leaf a) mem p q s l r e f = record {
    widget = a;
    color =
        draw_widget_lem gc parents w h x y px py a mem p q s.0 s.1
        ∙ rw (covers-contains w h x y lx ly px py a.frame l.0 l.1 q r.0 r.1 p.across p.down ∙ e)
            refl;
    takes_keys = refl;
  }
  focus_lem gc parents w h x y lx ly px py button (composite k focus a cs) mem p q s l r e f =
      let t = covers-contains w h x y lx ly px py a.frame l.0 l.1 q.0 r.0 r.1 p.across p.down ∙ e in
      let b = area_bounds (x + a.frame.x) (y + a.frame.y) a.frame.w a.frame.h px py t in
      let m = inner x a.frame.x a.frame.w lx px w l.0 b.0 b.1 r.0 p.across in
      let n = inner y a.frame.y a.frame.h ly py h l.1 b.2 b.3 r.1 p.down in
      let i =
        focus_all_lem gc (a.frame ∷ parents) a.frame.w a.frame.h (x + a.frame.x) (y + a.frame.y)
          (minus lx a.frame.x) (minus ly a.frame.y) px py button cs (draw_widget gc parents a mem)
          (Placed-child parents w h x y a.frame p q.0) q.1 s (m.0, n.0) (m.1, n.1) f in
      record {
        widget = i.child.widget;
        color = i.child.color;
        takes_keys = rw i.chosen i.child.takes_keys;
      }

  focus_all_lem :
      (gc : ℕ) (parents : List Frame) (w h x y lx ly px py button : ℕ) (cs : Widgets) (mem : ℕ → ℕ)
      → Placed parents w h x y
      → AreLaidOut w h cs
      → (px < 320) × (py < 200)
      → (px ≡ x + lx) × (py ≡ y + ly)
      → (lx < w) × (ly < h)
      → is_some (down_in lx ly button cs).1 ≡ true
      → FocussedIn (draw_all gc parents cs mem (pixel gc px py)) (down_in lx ly button cs)
  focus_all_lem gc parents w h x y lx ly px py button nil mem p q s l r f = absurd (false≢true f)
  focus_all_lem gc parents w h x y lx ly px py button (cons c cs) mem p q s l r f =
      elim (Bool-cases (contains lx ly c)) [
        | inl e ↦
            let g =
              asks_here (mouse_down lx ly button c).1 (asked (down_in-hit lx ly button c cs e) f) in
            let i =
              focus_lem gc parents w h x y lx ly px py button c (draw_all gc parents cs mem) p q.0 s
                l r e g in
            rw (down_in-hit lx ly button c cs e)
              (record { index = 0; chosen = rw g refl; child = i })
        | inr e ↦
            let t =
              covers-contains w h x y lx ly px py (look c).frame l.0 l.1 (laid_out-Within w h c q.0)
                r.0 r.1 p.across p.down
              ∙ e in
            let i = focus_all_lem gc parents w h x y lx ly px py button cs mem p q.1 s l r (
              is_some-next (down_in lx ly button cs).1
                (asked (down_in-miss lx ly button c cs e) f)) in
            rw (down_in-miss lx ly button c cs e) (
              rw
                (draw_outside gc parents w h x y px py c (draw_all gc parents cs mem) p q.0 s.0 s.1
                  t)
                (focussed_next (draw_all gc parents cs mem (pixel gc px py)) c
                  (down_in lx ly button cs) i))
      ]

root-Placed : Placed [] (2 ^ 31 - 1) (2 ^ 31 - 1) 0 0
unfolding model_to_screen
root-Placed = record { place = refl; across = omega arith; down = omega arith }

-- In a tree in which every widget lies in its parent, drawn with the root on coordinates from 0 to
-- 2 ^ 31 - 1: a click on the root at a pixel of the screen either leaves the widget at which the keys end
-- as it was, and the root does not ask for the focus, or makes that widget one whose colour the pixel shows.
pub draw-mouse_down :
    (gc px py button : ℕ) (c : Widget) (mem : ℕ → ℕ)
    → IsLaidOut (2 ^ 31 - 1) (2 ^ 31 - 1) c
    → px < 320
    → py < 200
    → contains px py c ≡ true
    → let d = mouse_down px py button c in
      ((d.1 ≡ false) × (key_target d.0 ≡ key_target c))
      ⊎ ((d.1 ≡ true) × Focussed (draw gc [] c mem (pixel gc px py)) (key_target d.0))
draw-mouse_down gc px py button c mem q a b e = elim (Bool-cases (mouse_down px py button c).1) [
  | inl f ↦ inr (
    f,
    focus_lem gc [] (2 ^ 31 - 1) (2 ^ 31 - 1) 0 0 px py px py button c mem root-Placed q (a, b)
        (omega arith, omega arith) (omega arith, omega arith) e f,
  )
  | inr f ↦ inl (f, keep_lem px py button c f)
]
