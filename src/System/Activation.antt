-- ===== src/System/Activation.antt =====
-- The activation of the drivers in kernelMain of source/src/kernel.cpp: what the keyboard controller has
-- as its command byte behind it.
pub mod Bits
mod Tests
use implementing_os_and_syst.Base.{
  ℕ, zero, suc, ◌+◌, ◌*◌, ◌/◌, ◌%◌, ◌^◌, ◌⊎◌, ◌≤◌, ◌<◌, ◌≡◌, refl, sym, ap, ◌∙◌, inl, inr, Bool,
  true, false, ◌&&◌, ◌==◌, Bool-cases, false≢true, Option, some, none, List, [], ◌∷◌, ◌++◌,
  if◌then◌else◌, arith,
}
use implementing_os_and_syst.Base.Bits.{range_passes, range_passes_at}
use implementing_os_and_syst.Ports.{
  Event, received, sent, printed, byte, Device, Io, pure, and_then, ◌>>=◌, ◌>>◌,
}
use implementing_os_and_syst.Drivers.Keyboard.Activation.{
  with_interrupts, drain, activate_keyboard, drain_stops, drain_goes_on, read_event,
}
use implementing_os_and_syst.Drivers.Mouse.{MouseDriver, activate}
use implementing_os_and_syst.Drivers.Mouse.Activation.{with_mouse_interrupt, activate_mouse}
use implementing_os_and_syst.Drivers.Manager.{
  Driver, plain_driver, DriverManager, driver_manager, add_drivers, activate_all, activate_from,
}
use implementing_os_and_syst.System.Activation.Bits.{BothOn, final_byte, final_byte-BothOn}

-- The mouse driver and the trace of port accesses, while the loops end.
abbrev pub Machine : Type 0
Machine = Option MouseDriver × List Event

-- The two drivers override Activate alone; MouseToConsole does not override OnActivate.
abbrev pub keyboard_driver : Device → ℕ → Driver Machine
keyboard_driver d fuel = record plain_driver {
  activate = λ s. and_then (λ m. activate_keyboard fuel >> pure m) d s;
}

abbrev pub mouse_driver : Device → Driver Machine
mouse_driver d = record plain_driver {
  activate = λ s. and_then (activate_mouse true (pure tt)) d s;
}

-- ActivateAll of the manager, where its array has taken the drivers.
abbrev pub activated : Option (DriverManager Machine) → Machine → Machine
activated none s = (none, s.1)
activated (some m) s = activate_all m s

-- The part of kernelMain about the driver manager; `fresh` is what stood in its array.
pub activate_drivers : Device → ℕ → (ℕ → Driver Machine) → Machine → Machine
activate_drivers d fuel fresh s =
    activated (add_drivers (keyboard_driver d fuel ∷ mouse_driver d ∷ []) (driver_manager fresh)) s

-- The controller takes the byte behind the command 0x60 as its command byte.
abbrev awaits_byte : List Event → Bool
awaits_byte (sent w q v ∷ t) = (q == 0x64) && (v == 0x60)
awaits_byte _ = false

abbrev sets_byte : Event → List Event → Bool
sets_byte (sent w q v) t = (q == 0x60) && awaits_byte t
sets_byte _ t = false

abbrev value : Event → ℕ
value (sent w q v) = v
value _ = 0

-- The command byte behind a trace, when it was `b` before.
abbrev pub command_byte : ℕ → List Event → ℕ
command_byte b [] = b
command_byte b (e ∷ t) = let rest = command_byte b t in if sets_byte e t then value e else rest

abbrev is_read : Event → Bool
is_read (received w q v) = true
is_read _ = false

-- Reads alone.
abbrev pub Reads : List Event → Type 0
Reads [] = Unit
Reads (e ∷ t) = (is_read e ≡ true) × Reads t

abbrev is_data_read : Event → Bool
is_data_read (received w q v) = q == 0x60
is_data_read _ = false

abbrev pub data_reads : List Event → ℕ
data_reads [] = 0
data_reads (e ∷ t) = let rest = data_reads t in if is_data_read e then suc rest else rest

-- The command 0x20 makes the controller give its command byte, `b` at first; and behind the trace `t`, at most
-- `n` bytes wait for a read.
pub record IsController (d : Device) (b n : ℕ) (t : List Event) : Type 0 where
  pub answers : (u : List Event) → d (sent byte 0x64 0x20 ∷ u) 0x60 ≡ command_byte b u
  pub empties : (r : List Event) → Reads r → n ≤ data_reads r → d (r ++ t) 0x64 % 2 ≡ 0

command_byte-Reads :
    (b : ℕ) (r t : List Event) → Reads r → command_byte b (r ++ t) ≡ command_byte b t
command_byte-Reads b [] t v = refl
command_byte-Reads b (received w q x ∷ r) t v = command_byte-Reads b r t v.1
command_byte-Reads b (sent w q x ∷ r) t v = absurd (false≢true v.0)
command_byte-Reads b (printed x ∷ r) t v = absurd (false≢true v.0)

parity : (v : ℕ) → (v % 2 ≡ 0) ⊎ (v % 2 ≡ 1)
parity v = ground arith

drain_lem :
    (k n b : ℕ) (d : Device) (t r : List Event)
    → IsController d b n t
    → Reads r
    → n ≤ data_reads r + k
    → (r' : List Event) × Reads r' × (drain (suc k) d (r ++ t) ≡ (some tt, r' ++ t))
drain_lem zero n b d t r c v l = (
  received byte 0x64 (d (r ++ t) 0x64 % 2 ^ 8) ∷ r,
  (refl, v),
  drain_stops 0 d (r ++ t) (c.empties r v (omega (arith, l))),
)
drain_lem (suc k) n b d t r c v l = elim (parity (d (r ++ t) 0x64)) [
  | inl e ↦ (
    received byte 0x64 (d (r ++ t) 0x64 % 2 ^ 8) ∷ r,
    (refl, v),
    drain_stops (suc k) d (r ++ t) e,
  )
  | inr e ↦
      let a = d (r ++ t) 0x64 % 2 ^ 8 in
      let v' = d (received byte 0x64 a ∷ (r ++ t)) 0x60 % 2 ^ 8 in
      let rest =
        drain_lem k n b d t (received byte 0x60 v' ∷ received byte 0x64 a ∷ r) c (refl, (refl, v))
          (omega (arith, l)) in
      (rest.0, rest.1, drain_goes_on (suc k) d (r ++ t) e ∙ rest.2)
]

abbrev keyboard_trace : Device → List Event → List Event
keyboard_trace d t =
    let v = d (sent byte 0x64 0x20 ∷ sent byte 0x64 0xae ∷ t) 0x60 % 2 ^ 8 in
    sent byte 0x60 0xf4
    ∷ sent byte 0x60 (with_interrupts v % 2 ^ 8)
    ∷ sent byte 0x64 0x60
    ∷ received byte 0x60 v
    ∷ sent byte 0x64 0x20
    ∷ sent byte 0x64 0xae
    ∷ t

keyboard_lem :
    (fuel n b : ℕ) (d : Device) (t : List Event)
    → IsController d b n t
    → (t' : List Event) × (activate_keyboard (suc (n + fuel)) d t ≡ (some tt, t'))
      × (command_byte b t' ≡ with_interrupts (command_byte b t % 2 ^ 8) % 2 ^ 8)
unfolding activate_keyboard
keyboard_lem fuel n b d t c =
    let e = drain_lem (n + fuel) n b d t [] c tt (omega arith) in
    (
      keyboard_trace d (e.0 ++ t),
      rw e.2 refl,
      ap (λ (v : ℕ). with_interrupts (v % 2 ^ 8) % 2 ^ 8)
          (c.answers (sent byte 0x64 0xae ∷ (e.0 ++ t)) ∙ command_byte-Reads b e.0 t e.1),
    )

abbrev mouse_trace : Device → List Event → List Event
mouse_trace d t =
    let v = d (sent byte 0x64 0x20 ∷ sent byte 0x64 0xA8 ∷ t) 0x60 % 2 ^ 8 in
    let u =
      sent byte 0x60 0xF4
      ∷ sent byte 0x64 0xD4
      ∷ sent byte 0x60 (with_mouse_interrupt v % 2 ^ 8)
      ∷ sent byte 0x64 0x60
      ∷ received byte 0x60 v
      ∷ sent byte 0x64 0x20
      ∷ sent byte 0x64 0xA8
      ∷ t in
    read_event d 0x60 u

mouse_lem :
    (n b : ℕ) (d : Device) (s t : List Event) (m : MouseDriver)
    → IsController d b n s
    → (activate_mouse true (pure tt) m d t ≡ (some (activate m), mouse_trace d t))
      × (command_byte b (mouse_trace d t) ≡ with_mouse_interrupt (command_byte b t % 2 ^ 8) % 2 ^ 8)
unfolding activate_mouse
mouse_lem n b d s t m c = (
  refl,
  ap (λ (v : ℕ). with_mouse_interrupt (v % 2 ^ 8) % 2 ^ 8) (c.answers (sent byte 0x64 0xA8 ∷ t)),
)

-- ActivateAll in kernelMain ends, with fuel above the number of bytes that wait in the keyboard controller; it
-- puts the mouse driver at the begin of a packet with no button held, and leaves the controller with the
-- interrupts of the keyboard and of the mouse and the clock of the keyboard switched on, the other bits of its
-- command byte as they were.
pub activate_drivers_lem :
    (fuel n b : ℕ) (d : Device) (fresh : ℕ → Driver Machine) (m : MouseDriver) (t : List Event)
    → IsController d b n t
    → (t' : List Event) × (activate_drivers d (suc (n + fuel)) fresh (some m, t)
        ≡ (some (activate m), t'))
      × BothOn (command_byte b t % 2 ^ 8) (command_byte b t')
unfolding activate_drivers activate_all activate_from
activate_drivers_lem fuel n b d fresh m t c =
    let k = keyboard_lem fuel n b d t c in
    let l = mouse_lem n b d t k.0 m c in
    (
      mouse_trace d k.0,
      rw k.1 l.0,
      rw (l.1, k.2) (final_byte-BothOn (command_byte b t % 2 ^ 8) (omega arith)),
    )
