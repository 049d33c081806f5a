-- ===== src/Drivers/Vga/Mode/Tests.antt =====
-- The mode of 320 by 200 pixels on a card that answers with zeros.
use implementing_os_and_syst.Base.{ℕ, ◌≡◌, some, [], get_or}
use implementing_os_and_syst.Ports.{Device}
use implementing_os_and_syst.Drivers.Vga.Mode.{write_registers, g_320x200x256}
use implementing_os_and_syst.Drivers.Vga.Mode.Held.{held}
use implementing_os_and_syst.Drivers.Vga.Mode.Registers.{write_registers_lem}

abbrev table : ℕ → ℕ
table n = get_or g_320x200x256 n 0

abbrev quiet : Device
quiet t p = 0

-- An array in which every byte has its lock bit: that of timing register 17 is cleared.
abbrev locked : ℕ → ℕ
locked n = 0x8E

write_registers_lem_example :
    let r = write_registers locked quiet [] in
    (r.0 ≡ some tt)
    × (held 0x3c4 0x3c5 17 r.1 ≡ 0)
    × (held 0x3ce 0x3cf 17 r.1 ≡ 0)
    × (held 0x3d4 0x3d5 17 r.1 ≡ 0x0E)
write_registers_lem_example = write_registers_lem locked quiet [] 17

-- Register 6 of the graphics controller selects the segment at 0xA0000.
segment_register : let r = write_registers table quiet [] in held 0x3ce 0x3cf 6 r.1 ≡ 0x05
segment_register = (write_registers_lem table quiet [] 6).2
