-- ===== src/Drivers/Mouse/Activation.antt =====
-- MouseDriver::Activate of source/src/drivers/mouse.cpp, with its accesses to the keyboard controller.
use implementing_os_and_syst.Base.{ℕ, ◌+◌, ◌*◌, ◌/◌, ◌%◌, Bool}
use implementing_os_and_syst.Ports.{Io, Port, port8, pure, read, write, when, ◌>>=◌, ◌>>◌}
use implementing_os_and_syst.Drivers.Mouse.{MouseDriver, activate}

abbrev pub data_port : Port
data_port = port8 0x60

abbrev pub command_port : Port
command_port = port8 0x64

-- `status | 2` on a byte.
abbrev pub with_mouse_interrupt : ℕ → ℕ
with_mouse_interrupt status = status / 4 * 4 + 2 + status % 2

-- Activate; `on_activate` is the handler's function, which runs if there is a handler.
unfoldable pub activate_mouse : Bool → Io Unit → MouseDriver → Io MouseDriver
activate_mouse has_handler on_activate m = do
  when has_handler on_activate
  write command_port 0xA8
  write command_port 0x20
  status ← read data_port
  write command_port 0x60
  write data_port (with_mouse_interrupt status)
  write command_port 0xD4
  write data_port 0xF4
  answer ← read data_port
  pure (activate m)
