-- ===== src/Pci/Drivers.antt =====
-- GetDriver of source/src/hardwarecommunication/pci.cpp, and what SelectDrivers does for each device that it
-- comes to: the driver on the heap, in the manager, and the line on the screen.
use implementing_os_and_syst.Base.{
  ℕ, ◌+◌, ◌/◌, ◌%◌, ◌≤◌, ◌<◌, ◌≡◌, refl, sym, subst, ap, ◌∙◌, Bool-cases, inl, inr, ◌&&◌, Option,
  none, some, List, [], ◌∷◌, length, codes, ◌==◌, if◌then◌else◌, arith,
}
use implementing_os_and_syst.Pci.{DeviceDescriptor}
use implementing_os_and_syst.Drivers.Manager.{
  Driver, DriverManager, add_driver, with_driver, add_driver-with_driver,
}
use implementing_os_and_syst.Memory.{MemoryManager, malloc, header}
use implementing_os_and_syst.Memory.Blocks.{Block, allocate, fit}
use implementing_os_and_syst.Memory.Refine.{IsHeap, Mallocs, null, block, malloc-Mallocs}
use implementing_os_and_syst.Kernel.Console.{Console, printf}
use implementing_os_and_syst.Kernel.Hex.{printf_hex}

-- What the scan changes: the active heap, the driver manager and the screen.
pub record Boot (S : Type 0) : Type 0 where
  pub heap : MemoryManager
  pub manager : DriverManager S
  pub screen : Console

-- `amd` is the network driver built for a descriptor at an address, `size` the size of its object; `fuel` bounds
-- the search of the heap.
module _ {S : Type 0} (amd : DeviceDescriptor → ℕ → Driver S) (size fuel : ℕ) where
  -- The case of the network card, with what malloc has returned.
  pub new_amd :
      DeviceDescriptor → Boot S → Option (MemoryManager × ℕ) → Option (Boot S × Option (Driver S))
  new_amd dev b none = none
  new_amd dev b (some (heap, p)) = some (
    record b { heap = heap; screen = printf (codes "AMD am79c973 ") b.screen },
    if p == 0 then none else some (amd dev p),
  )

  -- GetDriver.
  pub get_driver : DeviceDescriptor → Boot S → Option (Boot S × Option (Driver S))
  get_driver dev b =
      let is_vga = (dev.class_id == 0x03) && (dev.subclass_id == 0x00) in
      if (dev.vendor_id == 0x1022) && (dev.device_id == 0x2000)
      then new_amd dev b (malloc fuel size b.heap)
      else some (if is_vga then record b { screen = printf (codes "VGA ") b.screen } else b, none)

  -- The line for a device.
  pub print_device : DeviceDescriptor → Console → Console
  print_device dev s =
      let s1 = printf_hex (dev.bus % 256) (printf (codes "PCI BUS ") s) in
      let s2 = printf_hex (dev.device % 256) (printf (codes ", DEVICE ") s1) in
      let s3 = printf_hex (dev.function % 256) (printf (codes ", FUNCTION ") s2) in
      let s4 = printf_hex (dev.vendor_id / 256 % 256) (printf (codes " = VENDOR ") s3) in
      let s5 = printf (codes ", DEVICE ") (printf_hex (dev.vendor_id % 256) s4) in
      let s6 = printf_hex (dev.device_id % 256) (printf_hex (dev.device_id / 256 % 256) s5) in
      printf (codes "\n") s6

  -- What follows GetDriver in the body of the loop.
  pub registered : DeviceDescriptor → Option (Boot S × Option (Driver S)) → Option (Boot S)
  registered dev none = none
  registered dev (some (b, none)) = some (record b { screen = print_device dev b.screen })
  registered dev (some (b, some driver)) = elim (add_driver driver b.manager) [
    | none ↦ none
    | some m ↦ some (record b { manager = m; screen = print_device dev b.screen })
  ]

  pub visit : DeviceDescriptor → Boot S → Option (Boot S)
  visit dev b = registered dev (get_driver dev b)

  -- SelectDrivers over the devices that it comes to.
  pub visit_next : List DeviceDescriptor → Option (Boot S) → Option (Boot S)
  visit_next devs none = none
  visit_next [] (some b) = some b
  visit_next (dev ∷ devs) (some b) = visit_next devs (visit dev b)

  -- The scan of `n` devices from `b` on ends in a state with a heap, with the drivers of `b` in their places,
  -- and with at most `n` more.
  pub record Selects (start n blocks : ℕ) (b : Boot S) (r : Option (Boot S)) : Type 0 where
    pub after : Boot S
    pub row : List Block
    pub ends : r ≡ some after
    pub heap : IsHeap after.heap start row
    pub row_length : length row ≤ blocks + n
    pub no_fewer : b.manager.num_drivers ≤ after.manager.num_drivers
    pub no_more : after.manager.num_drivers ≤ b.manager.num_drivers + n
    pub kept : (j : ℕ) → j < b.manager.num_drivers → after.manager.drivers j ≡ b.manager.drivers j

  length-allocate : (bs : List Block) → length (allocate size bs) ≤ length bs + 1
  unfolding allocate
  length-allocate [] = omega arith
  length-allocate (b ∷ bs) = let rest = length-allocate bs in ground (arith, rest)

  -- A state that keeps the manager, or adds one driver to it.
  unchanged :
      (b after : Boot S) (start : ℕ) (bs row : List Block)
      → IsHeap after.heap start row
      → length row ≤ length bs + 1
      → after.manager ≡ b.manager
      → Selects start 1 (length bs) b (some after)
  unchanged b after start bs row h l e = record {
    after = after;
    row = row;
    ends = refl;
    heap = h;
    row_length = l;
    no_fewer = let n = ap (λ m. m.num_drivers) e in omega (arith, n);
    no_more = let n = ap (λ m. m.num_drivers) e in omega (arith, n);
    kept = λ j h. ap (λ m. m.drivers j) e;
  }

  one_more :
      (b after : Boot S) (driver : Driver S) (start : ℕ) (bs row : List Block)
      → IsHeap after.heap start row
      → length row ≤ length bs + 1
      → after.manager ≡ with_driver driver b.manager
      → Selects start 1 (length bs) b (some after)
  one_more b after driver start bs row h l e = record {
    after = after;
    row = row;
    ends = refl;
    heap = h;
    row_length = l;
    no_fewer = let n = ap (λ m. m.num_drivers) e in omega (arith, n);
    no_more = let n = ap (λ m. m.num_drivers) e in omega (arith, n);
    kept = λ j h. ap (λ m. m.drivers j) e ∙ ground arith;
  }

  registered_lem :
      (dev : DeviceDescriptor) (b : Boot S) (driver : Driver S)
      → b.manager.num_drivers < 265
      → registered dev (some (b, some driver))
        ≡ some (record b {
          manager = with_driver driver b.manager;
          screen = print_device dev b.screen;
        })
  unfolding registered
  registered_lem dev b driver free =
      ap
        (λ (o : Option (DriverManager S)). elim o as (λ x. Option (Boot S)) [
          | none ↦ none
          | some m ↦ some (record b { manager = m; screen = print_device dev b.screen })
        ])
        (add_driver-with_driver driver b.manager free)

  visit_amd :
      (dev : DeviceDescriptor) (b : Boot S) (start : ℕ) (bs : List Block)
      (r : Option (MemoryManager × ℕ))
      → IsHeap b.heap start bs
      → b.manager.num_drivers < 265
      → Mallocs size start bs b.heap r
      → Selects start 1 (length bs) b (registered dev (new_amd dev b r))
  unfolding new_amd registered
  visit_amd dev b start bs r v free (null z) = unchanged b _ start bs bs v (omega arith) refl
  visit_amd dev b start bs r v free (block m ne h) =
      elim (Bool-cases (fit size start bs + header == 0)) [
        | inl t ↦ rw t (unchanged b _ start bs (allocate size bs) h (length-allocate bs) refl)
        | inr t ↦ rw t (
            subst (Selects start 1 (length bs) b)
              (sym (
                registered_lem dev
                  (record b { heap = m; screen = printf (codes "AMD am79c973 ") b.screen })
                  (amd dev (fit size start bs + header)) free))
              (one_more b _ (amd dev (fit size start bs + header)) start bs (allocate size bs) h
                (length-allocate bs) refl))
      ]

  visit_other :
      (dev : DeviceDescriptor) (b : Boot S) (start : ℕ) (bs : List Block)
      → IsHeap b.heap start bs
      → let is_vga = (dev.class_id == 0x03) && (dev.subclass_id == 0x00) in
        Selects start 1 (length bs) b (
          registered dev (
            some
              (if is_vga then record b { screen = printf (codes "VGA ") b.screen } else b, none)))
  unfolding registered
  visit_other dev b start bs v =
      elim (Bool-cases ((dev.class_id == 0x03) && (dev.subclass_id == 0x00))) [
        | inl t ↦ rw t (unchanged b _ start bs bs v (omega arith) refl)
        | inr t ↦ rw t (unchanged b _ start bs bs v (omega arith) refl)
      ]

  visit_lem :
      (dev : DeviceDescriptor) (b : Boot S) (start : ℕ) (bs : List Block)
      → IsHeap b.heap start bs
      → b.manager.num_drivers < 265
      → length bs < fuel
      → Selects start 1 (length bs) b (visit dev b)
  unfolding visit get_driver
  visit_lem dev b start bs v free enough =
      elim (Bool-cases ((dev.vendor_id == 0x1022) && (dev.device_id == 0x2000))) [
        | inl t ↦ rw t (
            visit_amd dev b start bs (malloc fuel size b.heap) v free
              (malloc-Mallocs fuel size start bs b.heap v enough))
        | inr t ↦ rw t (visit_other dev b start bs v)
      ]

  -- SelectDrivers ends, whatever devices it comes to, where the fuel is above the number of blocks and devices and the
  -- array of the manager has a free place for each device: it leaves a heap, every driver that the manager had stays
  -- in its place, and no more than one is added for each device.
  pub visit_next_lem :
      (devs : List DeviceDescriptor) (b : Boot S) (start : ℕ) (bs : List Block)
      → IsHeap b.heap start bs
      → b.manager.num_drivers + length devs ≤ 265
      → length bs + length devs < fuel
      → Selects start (length devs) (length bs) b (visit_next devs (some b))
  unfolding visit_next
  visit_next_lem [] b start bs v places enough = record {
    after = b;
    row = bs;
    ends = refl;
    heap = v;
    row_length = omega arith;
    no_fewer = omega arith;
    no_more = omega arith;
    kept = λ j h. refl;
  }
  visit_next_lem (dev ∷ devs) b start bs v places enough =
      let one = visit_lem dev b start bs v (omega arith) (omega arith) in
      let rest =
        visit_next_lem devs one.after start one.row one.heap (omega (arith, one.no_more))
          (omega (arith, one.row_length)) in
      record {
        after = rest.after;
        row = rest.row;
        ends = ap (visit_next devs) one.ends ∙ rest.ends;
        heap = rest.heap;
        row_length = omega (arith, one.row_length, rest.row_length);
        no_fewer = omega (arith, one.no_fewer, rest.no_fewer);
        no_more = omega (arith, one.no_more, rest.no_more);
        kept = λ j h. rest.kept j (omega (arith, one.no_fewer)) ∙ one.kept j h;
      }
