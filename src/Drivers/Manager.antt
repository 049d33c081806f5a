-- ===== src/Drivers/Manager.antt =====
-- source/src/drivers/driver.cpp: the driver manager. A driver is its Activate, an action of the machine.
use implementing_os_and_syst.Base.{
  ℕ, zero, suc, ◌+◌, ◌≡◌, refl, ap, ◌∙◌, Bool, true, false, Option, some, none, length, ltb, lt→ltb,
  ◌≤◌, ◌<◌, List, [], ◌∷◌, ◌==◌, if◌then◌else◌, arith,
}

-- The virtual functions of a Driver, with the state `S` of the machine.
pub record Driver (S : Type 0) : Type 0 where
  pub activate : S → S
  pub reset : S → S × ℕ
  pub deactivate : S → S

-- Driver: what a driver does that overrides nothing.
abbrev pub plain_driver : {S : Type 0} → Driver S
plain_driver = record { activate = λ s. s; reset = λ s. (s, 0); deactivate = λ s. s }

pub record DriverManager (S : Type 0) : Type 0 where
  pub drivers : ℕ → Driver S
  pub num_drivers : ℕ

met : (i at : ℕ) → at ≡ i + 0 → (at == i) ≡ true
met i at e = ground arith

missed : (k i at : ℕ) → at ≡ i + suc k → (at == i) ≡ false
missed k i at e = ground arith

module _ {S : Type 0} where
  -- The constructor; the array holds what stood there before.
  abbrev pub driver_manager : (ℕ → Driver S) → DriverManager S
  driver_manager fresh = record { drivers = fresh; num_drivers = 0 }

  -- The manager with one more driver behind the others.
  abbrev pub with_driver : Driver S → DriverManager S → DriverManager S
  with_driver drv m = record {
    drivers = λ i. if m.num_drivers == i then drv else m.drivers i;
    num_drivers = m.num_drivers + 1;
  }

  -- AddDriver; `none` where it writes behind the 265 places of the array, which it does not test.
  abbrev pub add_driver : Driver S → DriverManager S → Option (DriverManager S)
  add_driver drv m = if ltb m.num_drivers 265 then some (with_driver drv m) else none

  -- The loop of ActivateAll, `k` rounds of it from `i` on.
  unfoldable pub activate_from : (ℕ → Driver S) → ℕ → ℕ → S → S
  activate_from drivers zero i s = s
  activate_from drivers (suc k) i s = activate_from drivers k (i + 1) ((drivers i).activate s)

  -- ActivateAll.
  unfoldable pub activate_all : DriverManager S → S → S
  activate_all m s = activate_from m.drivers m.num_drivers 0 s

  abbrev pub add_drivers : List (Driver S) → DriverManager S → Option (DriverManager S)
  add_drivers [] m = some m
  add_drivers (drv ∷ drvs) m = elim (add_driver drv m) [
    | none ↦ none
    | some m' ↦ add_drivers drvs m'
  ]

  abbrev pub activate_each : List (Driver S) → S → S
  activate_each [] s = s
  activate_each (drv ∷ drvs) s = activate_each drvs (drv.activate s)

  -- One more driver is activated behind the others.
  activate_from_last :
      (k i at : ℕ) (drivers : ℕ → Driver S) (drv : Driver S) (s : S)
      → at ≡ i + k
      → activate_from (λ j. if at == j then drv else drivers j) (suc k) i s
        ≡ drv.activate (activate_from drivers k i s)
  unfolding activate_from
  activate_from_last zero i at drivers drv s e =
      ap (λ (b : Bool). (if b then drv else drivers i).activate s) (met i at e)
  activate_from_last (suc k) i at drivers drv s e =
      ap
        (λ (b : Bool).
          activate_from (λ j. if at == j then drv else drivers j) (suc k) (i + 1)
            ((if b then drv else drivers i).activate s))
        (missed k i at e)
      ∙ activate_from_last k (i + 1) at drivers drv ((drivers i).activate s) (omega arith)

  activate_all-with_driver :
      (m : DriverManager S) (drv : Driver S) (s : S)
      → activate_all (with_driver drv m) s ≡ drv.activate (activate_all m s)
  unfolding activate_all
  activate_all-with_driver m drv s =
      ap (λ n. activate_from (with_driver drv m).drivers n 0 s) {x = m.num_drivers + 1}
        {y = suc m.num_drivers} (omega arith)
      ∙ activate_from_last m.num_drivers 0 m.num_drivers m.drivers drv s (omega arith)

  -- A free place takes the driver.
  pub add_driver-with_driver :
      (drv : Driver S) (m : DriverManager S)
      → m.num_drivers < 265
      → add_driver drv m ≡ some (with_driver drv m)
  add_driver-with_driver drv m room =
      ap (λ (b : Bool). if b then some (with_driver drv m) else none)
        (lt→ltb m.num_drivers 265 room)

  -- Where the array has room for them, ActivateAll activates every driver that was added, once each and in the order
  -- of their addition, behind those that were there before.
  pub activate_all-add_drivers :
      (drvs : List (Driver S)) (m : DriverManager S)
      → m.num_drivers + length drvs ≤ 265
      → (m' : DriverManager S) × (add_drivers drvs m ≡ some m')
        × ((s : S) → activate_all m' s ≡ activate_each drvs (activate_all m s))
  activate_all-add_drivers [] m room = (m, refl, λ s. refl)
  activate_all-add_drivers (drv ∷ drvs) m room =
      let rest = activate_all-add_drivers drvs (with_driver drv m) (omega (arith, room)) in
      (
        rest.0,
        ap
              (λ (o : Option (DriverManager S)). elim o as (λ x. Option (DriverManager S)) [
                | none ↦ none
                | some m' ↦ add_drivers drvs m'
              ])
              (add_driver-with_driver drv m (omega (arith, room)))
            ∙ rest.1,
        λ s. rest.2 s ∙ ap (activate_each drvs) (activate_all-with_driver m drv s),
      )
