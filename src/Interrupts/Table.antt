-- ===== src/Interrupts/Table.antt =====
-- Which stub each entry of the interrupt descriptor table leads to.
use implementing_os_and_syst.Base.{
  ℕ, zero, suc, ◌+◌, ◌-◌, ◌*◌, ◌%◌, ◌^◌, ◌≤◌, ◌<◌, ◌≡◌, ◌≢◌, ◌⊎◌, refl, ap, ◌∙◌, ◌&&◌, ltb, leb,
  ◌==◌, if◌then◌else◌, arith,
}
use implementing_os_and_syst.Interrupts.{
  Stub, interrupt_ignore, exception, request, GateDescriptor, Idt, gate, set_entry, entry,
  ignore_all, set_exceptions, set_requests, build_idt,
}

-- The stub that an interrupt number leads to.
pub stub_of : ℕ → ℕ → Stub
stub_of offset i =
    if i == 0x80
    then request 0x80
    else (if leb offset i && ltb i (offset + 16)
        then request (i - offset)
        else (if ltb i 20 then exception i else interrupt_ignore))

-- The address that a gate leads to, as the processor puts it together.
abbrev pub target : GateDescriptor → ℕ
target g = g.handler_address_low + g.handler_address_high * 65536

gate_lem :
    (code_segment handler : ℕ)
    → handler < 2 ^ 32
    → (target (gate code_segment handler 0 0xE) ≡ handler)
      × ((gate code_segment handler 0 0xE).access ≡ 0x8E)
      × ((gate code_segment handler 0 0xE).gdt_code_segment_selector ≡ code_segment)
unfolding gate
gate_lem code_segment handler h = (omega arith, refl, refl)

-- The number that a stub of interruptstubs.s hands to HandleInterrupt: requests are counted from
-- IRQ_BASE, which is 0x20, in a byte.
abbrev pub stub_number : Stub → ℕ
stub_number interrupt_ignore = 0
stub_number (exception e) = e
stub_number (request r) = (r + 0x20) % 256

-- With the offset 0x20 that the kernel passes, every exception and hardware interrupt is handled
-- under its own number, and the system call interrupt 0x80 under 0xA0, the number under which
-- SyscallHandler registers itself; no other number leads to a handler.
pub stub_of-numbers :
    (i : ℕ)
    → (((i < 20) ⊎ ((0x20 ≤ i) × (i < 0x30))) → stub_number (stub_of 0x20 i) ≡ i)
      × ((i ≡ 0x80) → stub_number (stub_of 0x20 i) ≡ (0x80 + 0x20) % 256)
      × (((20 ≤ i) × ((i < 0x20) ⊎ (0x30 ≤ i)) × (i ≢ 0x80)) → stub_of 0x20 i ≡ interrupt_ignore)
unfolding stub_of
stub_of-numbers i = (λ h. ground arith, λ h. ground arith, λ h. ground arith)

module _ (address : Stub → ℕ) (code_segment : ℕ) where
  ignore_all_lem :
      (n : ℕ) (table : Idt) (i : ℕ)
      → n ≤ 256
      → ignore_all address code_segment n table i
        ≡ (if ltb i n then entry address code_segment interrupt_ignore else table i)
  unfolding ignore_all
  ignore_all_lem zero table i h = ground arith
  ignore_all_lem (suc n) table i h =
      ground (
        arith,
        ignore_all_lem n (set_entry n (entry address code_segment interrupt_ignore) table) i,
      )

  set_exceptions_lem :
      (n e : ℕ) (table : Idt) (i : ℕ)
      → e + n ≤ 256
      → set_exceptions address code_segment n e table i
        ≡ (if leb e i && ltb i (e + n) then entry address code_segment (exception i) else table i)
  unfolding set_exceptions
  set_exceptions_lem zero e table i h = ground arith
  set_exceptions_lem (suc n) e table i h = ground (
    arith,
    set_exceptions_lem n (e + 1) (set_entry e (entry address code_segment (exception e)) table) i,
  )

  set_requests_lem :
      (n r offset : ℕ) (table : Idt) (i : ℕ)
      → offset + r + n ≤ 256
      → set_requests address code_segment n r offset table i ≡ (
          if leb (offset + r) i && ltb i (offset + r + n)
          then entry address code_segment (request (i - offset))
          else table i)
  unfolding set_requests
  set_requests_lem zero r offset table i h = ground arith
  set_requests_lem (suc n) r offset table i h = ground (
    arith,
    set_requests_lem n (r + 1) offset
        (set_entry (offset + r) (entry address code_segment (request r)) table) i,
  )

  build_idt-entry :
      (offset : ℕ) (table : Idt) (i : ℕ)
      → i < 256
      → offset + 16 ≤ 256
      → build_idt address code_segment offset table i
        ≡ entry address code_segment (stub_of offset i)
  unfolding build_idt stub_of
  build_idt-entry offset table i h k =
      let t1 = ignore_all address code_segment 256 table in
      let t2 = set_exceptions address code_segment 20 0 t1 in
      ground (
        arith,
        set_requests_lem 16 0 offset t2 i (omega arith),
        set_exceptions_lem 20 0 t1 i (omega arith),
        ignore_all_lem 256 table i (omega arith),
      )

  -- After the constructor, with room for the sixteen hardware interrupts below 256, each of the 256
  -- entries is a present interrupt gate of privilege 0 in the code segment, and leads to the stub of
  -- its number: the system call stub at 0x80, the hardware requests from the offset on, the
  -- exceptions below 20, and the stub that ignores the interrupt everywhere else.
  pub build_idt-stub_of :
      (offset : ℕ) (table : Idt) (i : ℕ)
      → i < 256
      → offset + 16 ≤ 256
      → ((s : Stub) → address s < 2 ^ 32)
      → (target (build_idt address code_segment offset table i) ≡ address (stub_of offset i))
        × ((build_idt address code_segment offset table i).access ≡ 0x8E)
        × ((build_idt address code_segment offset table i).gdt_code_segment_selector ≡ code_segment)
  build_idt-stub_of offset table i h k a =
      let e = build_idt-entry offset table i h k in
      let g = gate_lem code_segment (address (stub_of offset i)) (a (stub_of offset i)) in
      (
        ap target e ∙ g.0,
        ap (λ (d : GateDescriptor). d.access) e ∙ g.1,
        ap (λ (d : GateDescriptor). d.gdt_code_segment_selector) e ∙ g.2,
      )
