-- ===== src/Drivers/Vga/Mode.antt =====
-- WriteRegisters and SetMode of source/src/drivers/vga.cpp, as actions on the ports of the card.
pub mod Held
pub mod Registers
mod Tests
use implementing_os_and_syst.Base.{
  ℕ, zero, suc, ◌+◌, ◌%◌, Bool, true, false, List, [], ◌∷◌, get_or, ◌==◌, if◌then◌else◌,
}
use implementing_os_and_syst.Ports.{Io, Port, port8, pure, read, write, ◌>>=◌, ◌>>◌}
use implementing_os_and_syst.Drivers.Vga.{supports_mode}

-- The ports that the constructor makes.
abbrev pub misc_port : Port
misc_port = port8 0x3c2

abbrev pub crtc_index_port : Port
crtc_index_port = port8 0x3d4

abbrev pub crtc_data_port : Port
crtc_data_port = port8 0x3d5

abbrev pub sequencer_index_port : Port
sequencer_index_port = port8 0x3c4

abbrev pub sequencer_data_port : Port
sequencer_data_port = port8 0x3c5

abbrev pub graphics_controller_index_port : Port
graphics_controller_index_port = port8 0x3ce

abbrev pub graphics_controller_data_port : Port
graphics_controller_data_port = port8 0x3cf

abbrev pub attribute_controller_index_port : Port
attribute_controller_index_port = port8 0x3c0

abbrev pub attribute_controller_write_port : Port
attribute_controller_write_port = port8 0x3c0

abbrev pub attribute_controller_reset_port : Port
attribute_controller_reset_port = port8 0x3da

-- The loops over the sequencer, the cathode ray tube controller and the graphics controller: `k` rounds
-- from register `i` on, with the array read from `first` on.
pub write_block : Port → Port → ℕ → (ℕ → ℕ) → ℕ → ℕ → Io Unit
write_block index values first registers zero i = pure tt
write_block index values first registers (suc k) i = do
  write index i
  write values (registers (first + i))
  write_block index values first registers k (i + 1)

-- The loop over the attribute controller.
pub write_attributes : (ℕ → ℕ) → ℕ → ℕ → Io Unit
write_attributes registers zero i = pure tt
write_attributes registers (suc k) i = do
  status ← read attribute_controller_reset_port
  write attribute_controller_index_port i
  write attribute_controller_write_port (registers (40 + i))
  write_attributes registers k (i + 1)

-- `registers[0x03] |= 0x80` and `registers[0x11] &= ~0x80`, on bytes, six places into the array.
abbrev pub unlocked : (ℕ → ℕ) → ℕ → ℕ
unlocked registers n =
    if n == 9 then registers 9 % 128 + 128 else if n == 23 then registers 23 % 128 else registers n

-- The accesses of WriteRegisters that let the timing registers be written.
abbrev pub unlock_crtc : Io Unit
unlock_crtc = do
  write crtc_index_port 0x03
  blanking ← read crtc_data_port
  write crtc_data_port (blanking % 128 + 128)
  write crtc_index_port 0x11
  retrace ← read crtc_data_port
  write crtc_data_port (retrace % 128)

-- WriteRegisters.
pub write_registers : (ℕ → ℕ) → Io Unit
write_registers registers = do
  write misc_port (registers 0)
  write_block sequencer_index_port sequencer_data_port 1 registers 5 0
  unlock_crtc
  write_block crtc_index_port crtc_data_port 6 (unlocked registers) 25 0
  write_block graphics_controller_index_port graphics_controller_data_port 31 registers 9 0
  write_attributes registers 21 0
  reset ← read attribute_controller_reset_port
  write attribute_controller_index_port 0x20

abbrev pub g_320x200x256 : List ℕ
g_320x200x256 =
    0x63 ∷ 0x03 ∷ 0x01 ∷ 0x0F ∷ 0x00 ∷ 0x0E ∷ 0x5F ∷ 0x4F ∷ 0x50 ∷ 0x82 ∷ 0x54 ∷ 0x80 ∷ 0xBF ∷ 0x1F
    ∷ 0x00 ∷ 0x41 ∷ 0x00 ∷ 0x00 ∷ 0x00 ∷ 0x00 ∷ 0x00 ∷ 0x00 ∷ 0x9C ∷ 0x0E ∷ 0x8F ∷ 0x28 ∷ 0x40
    ∷ 0x96 ∷ 0xB9 ∷ 0xA3 ∷ 0xFF ∷ 0x00 ∷ 0x00 ∷ 0x00 ∷ 0x00 ∷ 0x00 ∷ 0x40 ∷ 0x05 ∷ 0x0F ∷ 0xFF
    ∷ 0x00 ∷ 0x01 ∷ 0x02 ∷ 0x03 ∷ 0x04 ∷ 0x05 ∷ 0x06 ∷ 0x07 ∷ 0x08 ∷ 0x09 ∷ 0x0A ∷ 0x0B ∷ 0x0C
    ∷ 0x0D ∷ 0x0E ∷ 0x0F ∷ 0x41 ∷ 0x00 ∷ 0x0F ∷ 0x00 ∷ 0x00 ∷ []

-- SetMode.
pub set_mode : ℕ → ℕ → ℕ → Io Bool
set_mode width height colordepth =
    if supports_mode width height colordepth
    then (do write_registers (λ n. get_or g_320x200x256 n 0); pure true)
    else pure false
