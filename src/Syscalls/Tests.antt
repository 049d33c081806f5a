-- ===== src/Syscalls/Tests.antt =====
-- System calls of source/src/syscalls.cpp on a small process table.
use implementing_os_and_syst.Base.{
  ℕ, ◌+◌, ◌*◌, ◌≡◌, refl, inl, some, [], arith, ◌==◌, if◌then◌else◌,
}
use implementing_os_and_syst.Machine.{minus_one}
use implementing_os_and_syst.Machine.CpuState
use implementing_os_and_syst.Multitasking.{TaskManager, ready}
use implementing_os_and_syst.Multitasking.Invariant.{IsValid}
use implementing_os_and_syst.Syscalls.{handle_interrupt, store, sys_fork, sys_double_return}
use implementing_os_and_syst.Syscalls.Laws.{
  EndsValid, handle_interrupt-EndsValid, fork_returns_twice,
}

-- Three tasks; the frame of the call is at 0x800, with the number of the call in eax.
abbrev calling : ℕ → TaskManager
calling number = record {
  mem = λ a. if a == CpuState.eax 0x800 then number else 0;
  tasks = λ i. record {
    cpustate = 0x10000 + 4096 * i;
    stack = 0x10000 + 4096 * i;
    eax_value = 0;
    pid = i;
    ppid = 0;
    priority = 5;
    state = ready;
    waiting_process = 0;
  };
  gdt = 0x1000;
  num_tasks = 3;
  current_task = 1;
  interrupt_count = 0;
  aging_pid = minus_one;
  next_pid = 3;
  out = [];
}

calling-IsValid : (number : ℕ) → IsValid (calling number)
calling-IsValid number = record {
  bounded = omega arith;
  next_is_count = refl;
  numbered = λ i l. refl;
  current_in = inl (omega arith);
}

handle_interrupt-EndsValid_example : EndsValid (handle_interrupt 0x800 0x700 (calling 7))
handle_interrupt-EndsValid_example =
    handle_interrupt-EndsValid 0x800 0x700 (calling 7) (calling-IsValid 7)

fork_returns_twice_example :
    (m' : TaskManager) × (handle_interrupt 0x800 0x700 (calling sys_fork) ≡ some (m', 0x800))
    × ((mem : ℕ → ℕ)
        → mem (CpuState.eax 0x900) ≡ sys_double_return
        → (handle_interrupt 0x900 0x700 (record m' { mem = mem })
            ≡ some (store (CpuState.ebx 0x900) 3 (record m' { mem = mem }), 0x900))
          × (handle_interrupt 0x900 0x700 (record m' { mem = mem; current_task = 3 })
              ≡ some (
                store (CpuState.ebx 0x900) 0 (record m' { mem = mem; current_task = 3 }),
                0x900,
              )))
fork_returns_twice_example =
    fork_returns_twice 0x800 0x700 0x900 (calling sys_fork) refl (omega arith) (omega arith)
      (inl (omega arith)) (inl (omega arith))
