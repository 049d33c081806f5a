-- ===== src/System/Activation/Tests.antt =====
-- A keyboard controller with three bytes that wait and the command byte 0x74.
use implementing_os_and_syst.Base.{
  ℕ, ◌%◌, ◌≤◌, ◌≡◌, refl, ◌&&◌, ◌==◌, some, List, [], ◌∷◌, append-nil, leb, if◌then◌else◌, arith,
}
use implementing_os_and_syst.Ports.{Event, sent, Device}
use implementing_os_and_syst.Drivers.Mouse.{MouseDriver, activate}
use implementing_os_and_syst.Drivers.Manager.{Driver, plain_driver}
use implementing_os_and_syst.System.Activation.{
  Machine, activate_drivers, command_byte, data_reads, IsController, activate_drivers_lem,
}
use implementing_os_and_syst.System.Activation.Bits.{BothOn}

abbrev answer : List Event → ℕ
answer (sent w q v ∷ u) = if (q == 0x64) && (v == 0x20) then command_byte 0x74 u else 0
answer _ = 0

abbrev controller : Device
controller t p = if p == 0x64 then (if leb 3 (data_reads t) then 0 else 1) else answer t

waits : (t : List Event) → 3 ≤ data_reads t → controller t 0x64 % 2 ≡ 0
waits t e = ground arith

controller-IsController : IsController controller 0x74 3 []
controller-IsController = record {
  answers = λ u. refl;
  empties = λ r v e. rw (append-nil r) (waits r e);
}

abbrev fresh_drivers : ℕ → Driver Machine
fresh_drivers i = plain_driver

abbrev stale_mouse : MouseDriver
stale_mouse = record { offset = 2; buttons = 1; buffer = λ i. 0 }

activate_drivers_lem_example :
    (t' : List Event) × (activate_drivers controller 4 fresh_drivers (some stale_mouse, [])
      ≡ (some (activate stale_mouse), t'))
    × BothOn 0x74 (command_byte 0x74 t')
activate_drivers_lem_example =
    activate_drivers_lem 0 3 0x74 controller fresh_drivers stale_mouse [] controller-IsController
