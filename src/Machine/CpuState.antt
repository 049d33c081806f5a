-- ===== src/Machine/CpuState.antt =====
-- The struct CPUState of source/include/multitasking.h: the address of each member of one at an address.
use implementing_os_and_syst.Base.{ℕ, ◌+◌}

abbrev pub size : ℕ
size = 52

abbrev pub eax : ℕ → ℕ
eax p = p

abbrev pub ebx : ℕ → ℕ
ebx p = p + 4

abbrev pub ecx : ℕ → ℕ
ecx p = p + 8

abbrev pub edx : ℕ → ℕ
edx p = p + 12

abbrev pub esi : ℕ → ℕ
esi p = p + 16

abbrev pub edi : ℕ → ℕ
edi p = p + 20

abbrev pub ebp : ℕ → ℕ
ebp p = p + 24

abbrev pub error : ℕ → ℕ
error p = p + 28

abbrev pub eip : ℕ → ℕ
eip p = p + 32

abbrev pub cs : ℕ → ℕ
cs p = p + 36

abbrev pub eflags : ℕ → ℕ
eflags p = p + 40

abbrev pub esp : ℕ → ℕ
esp p = p + 44

abbrev pub ss : ℕ → ℕ
ss p = p + 48
