-- ===== src/Pci.antt =====
-- The PCI controller of source/src/hardwarecommunication/pci.cpp. The configuration space is a function
-- from the addresses that are written to the command port.
pub mod Scan
pub mod Drivers
mod Tests
use implementing_os_and_syst.Base.{
  ℕ, zero, suc, ◌+◌, ◌-◌, ◌*◌, ◌/◌, ◌%◌, ◌^◌, Bool, true, false, not, ◌&&◌, ◌||◌, List, [], ◌∷◌,
  ◌++◌, ltb, leb, ◌==◌, if◌then◌else◌,
}

-- The fields of the address are disjoint: `|` is their sum.
unfoldable pub config_address : ℕ → ℕ → ℕ → ℕ → ℕ
config_address bus device function offset =
    2 ^ 31 + bus % 256 * 2 ^ 16 + device % 32 * 2 ^ 11 + function % 8 * 2 ^ 8 + offset % 256 / 4 * 4

-- Read.
unfoldable pub read : (ℕ → ℕ) → ℕ → ℕ → ℕ → ℕ → ℕ
read space bus device function offset =
    space (config_address bus device function offset) / 2 ^ (8 * (offset % 4))

-- Write.
pub write_register : ℕ → ℕ → ℕ → ℕ → ℕ → (ℕ → ℕ) → ℕ → ℕ
write_register bus device function offset value space a =
    if config_address bus device function offset == a then value else space a

-- DeviceHasFunctions.
abbrev pub device_has_functions : (ℕ → ℕ) → ℕ → ℕ → Bool
device_has_functions space bus device = not (read space bus device 0 0x0E / 128 % 2 == 0)

pub record BaseAddressRegister : Type 0 where
  pub address : ℕ
  pub is_io : Bool

pub record DeviceDescriptor : Type 0 where
  pub port_base : ℕ
  pub interrupt : ℕ
  pub bus : ℕ
  pub device : ℕ
  pub function : ℕ
  pub vendor_id : ℕ
  pub device_id : ℕ
  pub class_id : ℕ
  pub subclass_id : ℕ
  pub interface_id : ℕ
  pub revision : ℕ

-- `fresh` is what the uninitialised result of GetBaseAddressRegister holds, `fresh_port` the
-- uninitialised `portBase` of a descriptor.
module _ (space : ℕ → ℕ) (fresh : BaseAddressRegister) (fresh_port : ℕ) where
  -- GetBaseAddressRegister: `bar >= 6 - 4 * headertype`, and the address of an I/O register; a memory
  -- register leaves the address as it is.
  pub get_base_address_register : ℕ → ℕ → ℕ → ℕ → BaseAddressRegister
  get_base_address_register bus device function bar =
      let header_type = read space bus device function 0x0E % 128 in
      let value = read space bus device function (0x10 + 4 * bar) in
      if leb 6 (bar + 4 * header_type)
      then fresh
      else if value % 2 == 1
      then record { address = value / 4 * 4; is_io = true }
      else record { address = fresh.address; is_io = false }

  -- GetDeviceDescriptor; the fields are 16, 8 and, for the interrupt, 32 bits wide.
  pub get_device_descriptor : ℕ → ℕ → ℕ → DeviceDescriptor
  get_device_descriptor bus device function = record {
    port_base = fresh_port;
    interrupt = read space bus device function 0x3c;
    bus = bus;
    device = device;
    function = function;
    vendor_id = read space bus device function 0x00 % 2 ^ 16;
    device_id = read space bus device function 0x02 % 2 ^ 16;
    class_id = read space bus device function 0x0b % 256;
    subclass_id = read space bus device function 0x0a % 256;
    interface_id = read space bus device function 0x09 % 256;
    revision = read space bus device function 0x08 % 256;
  }

  -- The loop over the base address registers, `k` of them from `bar` on.
  pub port_from : ℕ → ℕ → DeviceDescriptor → DeviceDescriptor
  port_from zero bar dev = dev
  port_from (suc k) bar dev =
      let r = get_base_address_register dev.bus dev.device dev.function bar in
      port_from k (bar + 1)
        (if not (r.address == 0) && r.is_io then record dev { port_base = r.address } else dev)

  pub is_absent : DeviceDescriptor → Bool
  is_absent dev = (dev.vendor_id == 0x0000) || (dev.vendor_id == 0xFFFF)

  -- The descriptors for which SelectDrivers looks for a driver, in order: the loops over the functions of
  -- a device, the devices of a bus, and the buses.
  pub select_functions : ℕ → ℕ → ℕ → ℕ → List DeviceDescriptor
  select_functions bus device zero function = []
  select_functions bus device (suc k) function =
      let dev = get_device_descriptor bus device function in
      let rest = select_functions bus device k (function + 1) in
      if is_absent dev then rest else port_from 6 0 dev ∷ rest

  pub select_devices : ℕ → ℕ → ℕ → List DeviceDescriptor
  select_devices bus zero device = []
  select_devices bus (suc k) device =
      select_functions bus device (if device_has_functions space bus device then 8 else 1) 0
      ++ select_devices bus k (device + 1)

  pub select_buses : ℕ → ℕ → List DeviceDescriptor
  select_buses zero bus = []
  select_buses (suc k) bus = select_devices bus 32 0 ++ select_buses k (bus + 1)

  pub select_drivers : List DeviceDescriptor
  select_drivers = select_buses 8 0
