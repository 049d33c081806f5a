-- ===== src/Drivers/Keyboard/Activation.antt =====
-- KeyboardDriver::Activate of source/src/drivers/keyboard.cpp, with its accesses to the keyboard controller.
use implementing_os_and_syst.Base.{
  ℕ, zero, suc, ◌%◌, ◌^◌, ◌≡◌, refl, true, false, List, ◌∷◌, some, ◌==◌, if◌then◌else◌, bit_or,
  bit_and, arith,
}
use implementing_os_and_syst.Ports.{
  Io, Port, Device, Event, received, byte, port8, pure, stuck, read, write, ◌>>=◌, ◌>>◌,
}

abbrev pub data_port : Port
data_port = port8 0x60

abbrev pub command_port : Port
command_port = port8 0x64

-- `(dataport.Read() | 1) & ~0x10` as a byte.
abbrev pub with_interrupts : ℕ → ℕ
with_interrupts status = bit_and (bit_or status 1) 0xEF

-- The loop that empties the controller.
pub drain : ℕ → Io Unit
drain zero = stuck
drain (suc fuel) =
    let rest = drain fuel in
    do status ← read command_port; if status % 2 == 1 then read data_port >> rest else pure tt

-- Activate, with fuel for that loop.
unfoldable pub activate_keyboard : ℕ → Io Unit
activate_keyboard fuel = do
  drain fuel
  write command_port 0xae
  write command_port 0x20
  status ← read data_port
  write command_port 0x60
  write data_port (with_interrupts status)
  write data_port 0xf4

-- The trace behind a read of a port.
abbrev pub read_event : Device → ℕ → List Event → List Event
read_event d p t = received byte p (d t p % 2 ^ 8) ∷ t

empty_bit : (v : ℕ) → v % 2 ≡ 0 → (v % 2 ^ 8 % 2 == 1) ≡ false
empty_bit v e = ground arith

full_bit : (v : ℕ) → v % 2 ≡ 1 → (v % 2 ^ 8 % 2 == 1) ≡ true
full_bit v e = ground arith

pub drain_stops :
    (fuel : ℕ) (d : Device) (t : List Event)
    → d t 0x64 % 2 ≡ 0
    → drain (suc fuel) d t ≡ (some tt, read_event d 0x64 t)
unfolding drain
drain_stops fuel d t e = rw (empty_bit (d t 0x64) e) refl

pub drain_goes_on :
    (fuel : ℕ) (d : Device) (t : List Event)
    → d t 0x64 % 2 ≡ 1
    → drain (suc fuel) d t ≡ drain fuel d (read_event d 0x60 (read_event d 0x64 t))
unfolding drain
drain_goes_on fuel d t e = rw (full_bit (d t 0x64) e) refl
