-- ===== src/Pci/Tests.antt =====
-- A configuration space with one network card, and what the scan does with it.
use implementing_os_and_syst.Base.{
  ◌-◌, [], ◌∷◌, some, ℕ, ◌≡◌, refl, true, false, ◌==◌, if◌then◌else◌, arith,
}
use implementing_os_and_syst.Pci.{
  BaseAddressRegister, DeviceDescriptor, config_address, read, get_device_descriptor, is_absent,
  select_drivers,
}
use implementing_os_and_syst.Pci.Drivers.{Boot, Selects, visit_next, visit_next_lem}
use implementing_os_and_syst.Drivers.Manager.{plain_driver, driver_manager}
use implementing_os_and_syst.Memory.{memory_manager, header}
use implementing_os_and_syst.Memory.Refine.{memory_manager-IsHeap}
use implementing_os_and_syst.Pci.Scan.{In, found, responds, select_drivers_lem}

abbrev space : ℕ → ℕ
space a = if a == 0x8000_1800 then 0x2000_1022 else 0

abbrev nothing : BaseAddressRegister
nothing = record { address = 0; is_io = false }

address_of_card : config_address 0 3 0 0 ≡ 0x8000_1800
unfolding config_address
address_of_card = refl

card_responds : responds space nothing 0 0 3 0 ≡ true
unfolding get_device_descriptor is_absent read config_address
card_responds = refl

select_drivers_lem_example : In (found space nothing 0 0 3 0) (select_drivers space nothing 0)
select_drivers_lem_example =
    select_drivers_lem space nothing 0 0 3 0 (omega arith) (omega arith) (ground arith)
      card_responds

abbrev card : DeviceDescriptor
card = record {
  port_base = 0;
  interrupt = space (config_address 0 3 0 0x3c);
  bus = 0;
  device = 3;
  function = 0;
  vendor_id = 0x1022;
  device_id = 0x2000;
  class_id = 0;
  subclass_id = 0;
  interface_id = 0;
  revision = 0;
}

-- A heap of a megabyte, and a manager without drivers.
abbrev boot : Boot ℕ
boot = record {
  heap =
      memory_manager 0x100000 0x100000
        (λ a. record { next = 0; prev = 0; allocated = false; size = 0 });
  manager = driver_manager (λ i. plain_driver);
  screen = record { video = λ i. 0x0700; x = 0; y = 0 };
}

visit_next_lem_example :
    Selects
      (λ dev at. plain_driver)
      40000
      5
      0x100000
      1
      1
      boot
      (visit_next (λ dev at. plain_driver) 40000 5 (card ∷ []) (some boot))
visit_next_lem_example =
    visit_next_lem (λ dev at. plain_driver) 40000 5 (card ∷ []) boot 0x100000
      (record { size = 0x100000 - header; allocated = false } ∷ [])
      (memory_manager-IsHeap 0x100000 0x100000 _ (omega arith) (omega arith) (omega arith))
      (omega arith) (omega arith)
