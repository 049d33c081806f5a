-- ===== src/Gui/Widgets/Placed.antt =====
-- Where on the screen the widgets of a tree lie.
use implementing_os_and_syst.Base.{
  ℕ, ◌+◌, ◌*◌, ◌%◌, ◌^◌, ◌≤◌, ◌<◌, ◌≡◌, refl, ap, ◌∙◌, Bool, true, false, not, ◌&&◌, ltb, leb, List,
  ◌∷◌, if◌then◌else◌, arith,
}
use implementing_os_and_syst.Machine.{word_mod, signed_lt}
use implementing_os_and_syst.Gui.{Frame, contains_coordinate, plus, minus}
use implementing_os_and_syst.Drivers.Vga.{frame_buffer_segment, color_index, fill_rectangle_lem}
use implementing_os_and_syst.Gui.Widgets.{
  Look, Widget, leaf, composite, Widgets, nil, cons, model_to_screen, draw_widget,
}

-- `f` lies in an area of the size `w` by `h`.
abbrev pub Within : ℕ → ℕ → Frame → Type 0
Within w h f = (f.x + f.w ≤ w) × (f.y + f.h ≤ h)

-- Every widget lies in its parent, and the widget itself in an area of the size `w` by `h`.
unfoldable mutual
  pub IsLaidOut : ℕ → ℕ → Widget → Type 0
  IsLaidOut w h (leaf a) = Within w h a.frame
  IsLaidOut w h (composite k focus a cs) = Within w h a.frame × AreLaidOut a.frame.w a.frame.h cs

  pub AreLaidOut : ℕ → ℕ → Widgets → Type 0
  AreLaidOut w h nil = Unit
  AreLaidOut w h (cons c cs) = IsLaidOut w h c × AreLaidOut w h cs

-- The widgets on `parents` place an area of the size `w` by `h` at (`x`, `y`), on coordinates that are
-- not negative.
pub record Placed (parents : List Frame) (w h x y : ℕ) : Type 0 where
  pub place : model_to_screen parents (0, 0) ≡ (x, y)
  pub across : x + w < 2 ^ 31
  pub down : y + h < 2 ^ 31

-- The area of the size `w` by `h` at (`x`, `y`) has the pixel (`px`, `py`).
abbrev pub area : ℕ → ℕ → ℕ → ℕ → ℕ → ℕ → Bool
area x y w h px py = (leb x px && ltb px (x + w)) && (leb y py && ltb py (y + h))

-- The same of a widget that stands in an area at (`x`, `y`).
abbrev pub covers : ℕ → ℕ → Frame → ℕ → ℕ → Bool
covers x y f px py = area (x + f.x) (y + f.y) f.w f.h px py

abbrev pub color_of : Look → ℕ
color_of a = color_index a.r a.g a.b

abbrev pub pixel : ℕ → ℕ → ℕ → ℕ
pixel gc px py = frame_buffer_segment gc + 320 * py + px

fits : (n : ℕ) → n < word_mod → n % word_mod ≡ n
fits n p = omega arith

pair_eq : {a b c d : ℕ} → a ≡ c → b ≡ d → ◌≡◌ {A = ℕ × ℕ} (a, b) (c, d)
pair_eq p q = rw (p, q) refl

edges :
    (x y w h px py : ℕ)
    → x + w < 2 ^ 31
    → y + h < 2 ^ 31
    → ((leb x px && ltb px ((x + w) % word_mod)) && (leb y py && ltb py ((y + h) % word_mod)))
      ≡ ((leb x px && ltb px (x + w)) && (leb y py && ltb py (y + h)))
edges x y w h px py p q = rw (fits (x + w) (omega (arith, p)), fits (y + h) (omega (arith, q))) refl

pub Placed-child :
    (parents : List Frame) (w h x y : ℕ) (f : Frame)
    → Placed parents w h x y
    → Within w h f
    → Placed (f ∷ parents) f.w f.h (x + f.x) (y + f.y)
unfolding model_to_screen
Placed-child parents w h x y f p q = record {
  place = rw p.place (
      pair_eq (fits (x + f.x) (omega (arith, p.across, q.0)))
        (fits (y + f.y) (omega (arith, p.down, q.1))));
  across = omega (arith, p.across, q.0);
  down = omega (arith, p.down, q.1);
}

pub draw_widget_lem :
    (gc : ℕ) (parents : List Frame) (w h x y px py : ℕ) (a : Look) (mem : ℕ → ℕ)
    → Placed parents w h x y
    → Within w h a.frame
    → px < 320
    → py < 200
    → let i = frame_buffer_segment gc + 320 * py + px in
      draw_widget gc parents a mem i
      ≡ (if covers x y a.frame px py then color_index a.r a.g a.b else mem i)
unfolding draw_widget
draw_widget_lem gc parents w h x y px py a mem p q c d =
    let k = Placed-child parents w h x y a.frame p q in
    rw k.place (
      fill_rectangle_lem gc (x + a.frame.x) (y + a.frame.y) a.frame.w a.frame.h a.r a.g a.b px py
        mem c d (omega (arith, k.across)) (omega (arith, k.down))
      ∙ ap
          (λ (t : Bool).
            if t then color_index a.r a.g a.b else mem (frame_buffer_segment gc + 320 * py + px))
          (edges (x + a.frame.x) (y + a.frame.y) a.frame.w a.frame.h px py k.across k.down))

ltb_shift : (a b k : ℕ) → ltb (a + k) (b + k) ≡ ltb a b
ltb_shift a b k = ground arith

axis_small :
    (x f s l : ℕ)
    → (leb (x + f) (x + l) && ltb (x + l) (x + f + s)) ≡ (not (ltb l f) && ltb l (f + s))
axis_small x f s l = ground arith

and_join : (a b c d : Bool) → (a && b && (c && d)) ≡ (a && b && c && d)
and_join true true c d = refl
and_join true false c d = refl
and_join false b c d = refl

signed_small : (a b : ℕ) → a < 2 ^ 31 → b < 2 ^ 31 → signed_lt a b ≡ ltb a b
signed_small a b p q =
    rw (fits (a + 2 ^ 31) (omega (arith, p)), fits (b + 2 ^ 31) (omega (arith, q)))
      (ltb_shift a b (2 ^ 31))

axis :
    (x f s l m : ℕ)
    → f + s ≤ m
    → l < m
    → x + m < 2 ^ 31
    → (leb (x + f) (x + l) && ltb (x + l) (x + f + s))
      ≡ (not (signed_lt l f) && signed_lt l (plus f s))
axis x f s l m p q r =
    rw
      (
        fits (f + s) (omega (arith, p, r)),
        signed_small l f (omega (arith, p, q, r)) (omega (arith, p, q, r)),
        signed_small l (f + s) (omega (arith, p, q, r)) (omega (arith, p, q, r)),
      )
      (axis_small x f s l)

pub covers-contains :
    (w h x y lx ly px py : ℕ) (f : Frame)
    → px ≡ x + lx
    → py ≡ y + ly
    → Within w h f
    → lx < w
    → ly < h
    → x + w < 2 ^ 31
    → y + h < 2 ^ 31
    → covers x y f px py ≡ contains_coordinate f lx ly
unfolding contains_coordinate
covers-contains w h x y lx ly px py f g j q a b c d =
    rw (g, j, axis x f.x f.w lx w q.0 a c, axis y f.y f.h ly h q.1 b d)
      (and_join (not (signed_lt lx f.x)) (signed_lt lx (plus f.x f.w)) (not (signed_lt ly f.y))
        (signed_lt ly (plus f.y f.h)))

pub area-false :
    (x y w h px py : ℕ) (f : Frame)
    → Within w h f
    → area x y w h px py ≡ false
    → covers x y f px py ≡ false
area-false x y w h px py f q e = ground (arith)

pub area_bounds :
    (x y w h px py : ℕ)
    → area x y w h px py ≡ true
    → (x ≤ px) × (px < x + w) × (y ≤ py) × (py < y + h)
area_bounds x y w h px py e = (ground arith, ground arith, ground arith, ground arith)

-- The coordinate `l` in the parent of a point of the screen that lies on the widget.
pub inner :
    (x f s l p w : ℕ)
    → p ≡ x + l
    → x + f ≤ p
    → p < x + f + s
    → l < w
    → x + w < 2 ^ 31
    → (p ≡ x + f + minus l f) × (minus l f < s)
inner x f s l p w a b c d e = (omega arith, omega arith)
