-- ===== src/Interrupts.antt =====
-- source/src/hardwarecommunication/interrupts.cpp and source/include/hardwarecommunication/interrupts.h: the
-- interrupt descriptor table, the registration of handlers and the dispatch of an interrupt.
pub mod Table
pub mod Dispatch
pub mod Parts
mod Tests
use implementing_os_and_syst.Base.{
  ℕ, zero, suc, ◌+◌, ◌*◌, ◌/◌, ◌%◌, ◌^◌, Bool, true, false, not, ◌&&◌, Option, none, some, List, [],
  ◌∷◌, bit_or, ltb, leb, ◌==◌, if◌then◌else◌,
}

-- The entry points of interruptstubs.s.
pub data Stub : Type 0 where
  interrupt_ignore : Stub
  exception : ℕ → Stub
  request : ℕ → Stub

pub record GateDescriptor : Type 0 where
  pub handler_address_low : ℕ
  pub gdt_code_segment_selector : ℕ
  pub reserved : ℕ
  pub access : ℕ
  pub handler_address_high : ℕ

abbrev pub Idt : Type 0
Idt = ℕ → GateDescriptor

abbrev pub idt_desc_present : ℕ
idt_desc_present = 0x80

abbrev pub idt_interrupt_gate : ℕ
idt_interrupt_gate = 0xE

-- The descriptor that SetInterruptDescriptorTableEntry writes for a handler address.
pub gate : ℕ → ℕ → ℕ → ℕ → GateDescriptor
gate code_segment handler privilege type = record {
  handler_address_low = handler % 65536;
  gdt_code_segment_selector = code_segment;
  reserved = 0;
  access = bit_or (bit_or idt_desc_present (privilege % 4 * 32)) type;
  handler_address_high = handler / 65536 % 65536;
}

-- The index is a `uint8_t`.
abbrev pub set_entry : ℕ → GateDescriptor → Idt → Idt
set_entry interrupt g table i = if interrupt % 256 == i then g else table i

-- A write of a byte to a port.
pub record PortWrite : Type 0 where
  pub port : ℕ
  pub value : ℕ

abbrev pub master_command : ℕ
master_command = 0x20

abbrev pub master_data : ℕ
master_data = 0x21

abbrev pub slave_command : ℕ
slave_command = 0xA0

abbrev pub slave_data : ℕ
slave_data = 0xA1

-- The construction of the table. The addresses of the stubs are fixed by the linker.
module _ (address : Stub → ℕ) (code_segment : ℕ) where
  abbrev pub entry : Stub → GateDescriptor
  entry s = gate code_segment (address s) 0 idt_interrupt_gate

  -- The loop from 255 down to 1, and the entry 0 behind it: `n` entries below `n`.
  pub ignore_all : ℕ → Idt → Idt
  ignore_all zero table = table
  ignore_all (suc n) table = ignore_all n (set_entry n (entry interrupt_ignore) table)

  -- The entries of the exceptions from number `e` on.
  pub set_exceptions : ℕ → ℕ → Idt → Idt
  set_exceptions zero e table = table
  set_exceptions (suc n) e table =
      set_exceptions n (e + 1) (set_entry e (entry (exception e)) table)

  -- The entries of the hardware interrupts from request `r` on.
  pub set_requests : ℕ → ℕ → ℕ → Idt → Idt
  set_requests zero r offset table = table
  set_requests (suc n) r offset table =
      set_requests n (r + 1) offset (set_entry (offset + r) (entry (request r)) table)

  -- The stores of the constructor of InterruptManager into the table, in order.
  pub build_idt : ℕ → Idt → Idt
  build_idt offset table =
      set_entry 0x80 (entry (request 0x80))
        (set_requests 16 0 offset (set_exceptions 20 0 (ignore_all 256 table)))

-- The writes by which the constructor programs the two interrupt controllers.
pub remap : ℕ → List PortWrite
remap offset =
    record { port = master_command; value = 0x11 }
    ∷ record { port = slave_command; value = 0x11 }
    ∷ record { port = master_data; value = offset % 256 }
    ∷ record { port = slave_data; value = (offset + 8) % 256 }
    ∷ record { port = master_data; value = 0x04 }
    ∷ record { port = slave_data; value = 0x02 }
    ∷ record { port = master_data; value = 0x01 }
    ∷ record { port = slave_data; value = 0x01 }
    ∷ record { port = master_data; value = 0x00 }
    ∷ record { port = slave_data; value = 0x00 }
    ∷ []

-- `ActiveInterruptManager`, by the number of the manager, and the interrupt flag of the processor.
pub record Activation : Type 0 where
  pub active : Option ℕ
  pub enabled : Bool

-- InterruptManager::Deactivate of the manager `this`.
pub deactivate : ℕ → Activation → Activation
deactivate this s = elim s.active [
  | none ↦ s
  | some m ↦ if m == this then record { active = none; enabled = false } else s
]

-- InterruptManager::Activate; `sti` comes last.
pub activate : ℕ → Activation → Activation
unfolding deactivate
activate this s =
    let s' : Activation = elim s.active [ none ↦ s | some m ↦ deactivate m s ] in
    record s' { active = some this; enabled = true }

-- The table of handlers, by the identity of each.
abbrev pub Handlers : Type 0
Handlers = ℕ → Option ℕ

-- The constructor of InterruptHandler: the number is a `uint8_t`.
unfoldable pub register : ℕ → ℕ → Handlers → Handlers
register this number h i = if number % 256 == i then some this else h i

-- Its destructor: the entry goes only if it still is this handler's.
pub unregister : ℕ → ℕ → Handlers → Handlers
unregister this number h i =
    if number % 256 == i
    then elim (h i) [ none ↦ none | some t ↦ if t == this then none else some t ]
    else h i

-- What the dispatcher needs of the rest of the kernel, over its state: the virtual HandleInterrupt of
-- each handler, Schedule, the message for an interrupt without a handler, and the port writes.
pub record Kernel (S : Type 0) : Type 0 where
  pub handle : ℕ → ℕ → S → Option (S × ℕ)
  pub schedule : ℕ → S → Option (S × ℕ)
  pub unhandled : ℕ → S → S
  pub write_port : ℕ → ℕ → S → S

module _ {S : Type 0} (k : Kernel S) (handlers : Handlers) (offset : ℕ) where
  -- The acknowledgement of a hardware interrupt.
  pub acknowledge : ℕ → S → S
  acknowledge interrupt s =
      if leb offset interrupt && ltb interrupt (offset + 16)
      then (let s' = k.write_port master_command 0x20 s in
          if leb (offset + 8) interrupt then k.write_port slave_command 0x20 s' else s')
      else s

  -- The registered handler, or the message.
  pub run_handler : ℕ → ℕ → S → Option (S × ℕ)
  run_handler interrupt esp s = elim (handlers interrupt) [
    | some h ↦ k.handle h esp s
    | none ↦ some (if interrupt == offset then s else k.unhandled interrupt s, esp)
  ]

  -- Schedule, on the timer interrupt.
  pub run_schedule : ℕ → ℕ → S → Option (S × ℕ)
  run_schedule interrupt esp s = if interrupt == offset then k.schedule esp s else some (s, esp)

  -- InterruptManager::DoHandleInterrupt.
  pub do_handle_interrupt : ℕ → ℕ → S → Option (S × ℕ)
  unfolding acknowledge run_handler run_schedule
  do_handle_interrupt interrupt esp s = elim (run_handler interrupt esp s) [
    | none ↦ none
    | some (s1, esp1) ↦ elim (run_schedule interrupt esp1 s1) [
      | none ↦ none
      | some (s2, esp2) ↦ some (acknowledge interrupt s2, esp2)
    ]
  ]

  -- The static InterruptManager::HandleInterrupt.
  pub handle_interrupt : Activation → ℕ → ℕ → S → Option (S × ℕ)
  unfolding do_handle_interrupt
  handle_interrupt a interrupt esp s = elim a.active [
    | none ↦ some (s, esp)
    | some m ↦ do_handle_interrupt interrupt esp s
  ]
