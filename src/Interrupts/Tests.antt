-- ===== src/Interrupts/Tests.antt =====
-- The interrupt table and the dispatch of source/src/hardwarecommunication/interrupts.cpp, over a kernel that
-- keeps a list of what it did.
use implementing_os_and_syst.Base.{ℕ, ◌+◌, ◌*◌, ◌%◌, ◌≡◌, some, none, List, ◌∷◌, arith}
use implementing_os_and_syst.Interrupts.{Stub, Idt, Kernel, Handlers, PortWrite, build_idt}
use implementing_os_and_syst.Interrupts.Table.{target, stub_of, stub_number, build_idt-stub_of}

abbrev kernel : Kernel (List PortWrite)
kernel = record {
  handle = λ h esp s. some (s, esp + 4);
  schedule = λ esp s. some (s, 0x9000);
  unhandled = λ i s. s;
  write_port = λ p v s. record { port = p; value = v } ∷ s;
}

abbrev no_handlers : Handlers
no_handlers i = none

abbrev empty_table : Idt
empty_table i = record {
  handler_address_low = 0;
  gdt_code_segment_selector = 0;
  reserved = 0;
  access = 0;
  handler_address_high = 0;
}

abbrev stub_address : Stub → ℕ
stub_address s = 0x100000 + 16 * (stub_number s % 256)

build_idt-stub_of_example :
    (target (build_idt stub_address 0x10 0x20 empty_table 0x21) ≡ stub_address (stub_of 0x20 0x21))
    × ((build_idt stub_address 0x10 0x20 empty_table 0x21).access ≡ 0x8E)
    × ((build_idt stub_address 0x10 0x20 empty_table 0x21).gdt_code_segment_selector ≡ 0x10)
build_idt-stub_of_example =
    build_idt-stub_of stub_address 0x10 0x20 empty_table 0x21 (omega arith) (omega arith)
      (λ s. omega arith)
