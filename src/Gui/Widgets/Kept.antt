-- ===== src/Gui/Widgets/Kept.antt =====
-- The loop of OnMouseDown over the children, and a click that no widget takes.
use implementing_os_and_syst.Base.{
  ℕ, zero, suc, ◌≡◌, refl, sym, ap, ◌∙◌, inl, inr, Bool, true, false, Bool-cases, false≢true, subst,
  Option, none, some, if◌then◌else◌,
}
use implementing_os_and_syst.Gui.{minus, is_some}
use implementing_os_and_syst.Gui.Widgets.{
  Widget, leaf, composite, Widgets, nil, cons, contains, mouse_down, down_in, next, key_target,
  key_target_at,
}

pub down_in-hit :
    (x y button : ℕ) (c : Widget) (cs : Widgets)
    → contains x y c ≡ true
    → let d = mouse_down x y button c in
      down_in x y button (cons c cs) ≡ (cons d.0 cs, if d.1 then some 0 else none)
unfolding mouse_down
down_in-hit x y button c cs e = rw e refl

pub down_in-miss :
    (x y button : ℕ) (c : Widget) (cs : Widgets)
    → contains x y c ≡ false
    → let rest = down_in x y button cs in
      down_in x y button (cons c cs) ≡ (cons c rest.0, next rest.1)
unfolding mouse_down
down_in-miss x y button c cs e = rw e refl

pub asks_here : (b : Bool) → is_some (if b then some 0 else none) ≡ true → b ≡ true
asks_here true e = refl
asks_here false e = e

pub asked : {r r' : Widgets × Option ℕ} → r ≡ r' → is_some r.1 ≡ true → is_some r'.1 ≡ true
asked e f = subst (λ (r : Widgets × Option ℕ). is_some r.1 ≡ true) e f

pub is_some-next : (o : Option ℕ) → is_some (next o) ≡ true → is_some o ≡ true
is_some-next none e = e
is_some-next (some i) e = refl

is_none : (o : Option ℕ) → is_some o ≡ false → o ≡ none
is_none none e = refl
is_none (some i) e = absurd (false≢true (sym e))

asks_not : (b : Bool) → ◌≡◌ {A = Option ℕ} (if b then some 0 else none) none → b ≡ false
asks_not true e = absurd (false≢true (sym (ap is_some e)))
asks_not false e = refl

next-none : (o : Option ℕ) → next o ≡ none → o ≡ none
next-none none e = refl
next-none (some i) e = absurd (false≢true (sym (ap is_some e)))

mutual
  unfolding mouse_down key_target

  pub keep_lem :
      (x y button : ℕ) (c : Widget)
      → (mouse_down x y button c).1 ≡ false
      → key_target (mouse_down x y button c).0 ≡ key_target c
  keep_lem x y button (leaf a) e = refl
  keep_lem x y button (composite k none a cs) e =
      rw (is_none (down_in (minus x a.frame.x) (minus y a.frame.y) button cs).1 e) refl
  keep_lem x y button (composite k (some i) a cs) e =
      let n = is_none (down_in (minus x a.frame.x) (minus y a.frame.y) button cs).1 e in
      rw n (keep_all_lem (minus x a.frame.x) (minus y a.frame.y) button i cs n)

  keep_all_lem :
      (x y button i : ℕ) (cs : Widgets)
      → (down_in x y button cs).1 ≡ none
      → key_target_at i (down_in x y button cs).0 ≡ key_target_at i cs
  keep_all_lem x y button i nil e = refl
  keep_all_lem x y button zero (cons c cs) e = elim (Bool-cases (contains x y c)) [
    | inl t ↦ rw (down_in-hit x y button c cs t) (
        keep_lem x y button c (
          asks_not (mouse_down x y button c).1
            (sym (ap (λ (r : Widgets × Option ℕ). r.1) (down_in-hit x y button c cs t)) ∙ e)))
    | inr t ↦ rw (down_in-miss x y button c cs t) refl
  ]
  keep_all_lem x y button (suc i) (cons c cs) e = elim (Bool-cases (contains x y c)) [
    | inl t ↦ rw (down_in-hit x y button c cs t) refl
    | inr t ↦ rw (down_in-miss x y button c cs t) (
        keep_all_lem x y button i cs (
          next-none (down_in x y button cs).1
            (sym (ap (λ (r : Widgets × Option ℕ). r.1) (down_in-miss x y button c cs t)) ∙ e)))
  ]
