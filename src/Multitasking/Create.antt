-- ===== src/Multitasking/Create.antt =====
-- fork, AddTask and execve: what the new or renewed task starts from.
use implementing_os_and_syst.Base.{ℕ, ◌+◌, ◌*◌, ◌≤◌, ◌<◌, ◌≡◌, ◌≢◌, refl, ◌⊎◌, arith}
use implementing_os_and_syst.Machine.{Memory}
use implementing_os_and_syst.Machine.CpuState
use implementing_os_and_syst.Gdt.{code_segment_selector}
use implementing_os_and_syst.Multitasking.{
  TaskManager, ready, current, stack_top, init_registers, execve,
}

-- The two ranges of `n` and `k` words share no word.
abbrev pub Disjoint : ℕ → ℕ → ℕ → ℕ → Type 0
Disjoint a n b k = (a + 4 * n ≤ b) ⊎ (b + 4 * k ≤ a)

-- createProcess writes inside of the frame only.
pub init_registers_outside :
    (gdt entry p : ℕ) (m : Memory) (a : ℕ)
    → (a < p) ⊎ (p + 52 ≤ a)
    → init_registers gdt entry p m a ≡ m a
unfolding init_registers
init_registers_outside gdt entry p m a h = ground arith

-- The frame that createProcess leaves: the entry point, the code segment, the flags 0x202, and seven
-- cleared registers.
pub record FreshFrame (gdt entry p : ℕ) (m : Memory) : Type 0 where
  pub eip : m (CpuState.eip p) ≡ entry
  pub cs : m (CpuState.cs p) ≡ 16
  pub eflags : m (CpuState.eflags p) ≡ 0x202
  pub cleared : (k : ℕ) → k < 7 → m (p + 4 * k) ≡ 0

code_segment_is : (gdt : ℕ) → code_segment_selector gdt ≡ 16
unfolding code_segment_selector
code_segment_is gdt = omega arith

cleared_lem :
    (gdt entry p : ℕ) (m : Memory) (k : ℕ) → k < 7 → init_registers gdt entry p m (p + 4 * k) ≡ 0
unfolding init_registers
cleared_lem gdt entry p m k h = ground arith

init_registers-FreshFrame :
    (gdt entry p : ℕ) (m : Memory) → FreshFrame gdt entry p (init_registers gdt entry p m)
init_registers-FreshFrame gdt entry p m = record {
  eip = unfold init_registers in ground arith;
  cs = unfold init_registers in ground (arith, code_segment_is gdt);
  eflags = unfold init_registers in ground arith;
  cleared = cleared_lem gdt entry p m;
}

-- execve gives the current task a fresh frame at the top of its own stack, returns the address of
-- that frame, keeps pid, ppid and priority, makes the task ready, and leaves every other task and
-- every word outside of the frame alone.
pub execve_lem :
    (entry : ℕ) (m : TaskManager)
    → let (m', esp) = execve entry m in
      FreshFrame m.gdt entry (stack_top (current m)) m'.mem
      × (esp ≡ stack_top (current m))
      × (m'.tasks m.current_task
          ≡ record (current m) { cpustate = stack_top (current m); state = ready })
      × ((j : ℕ) → j ≢ m.current_task → m'.tasks j ≡ m.tasks j)
      × ((a : ℕ) → (a < esp) ⊎ (esp + 52 ≤ a) → m'.mem a ≡ m.mem a)
unfolding execve
execve_lem entry m = (
  init_registers-FreshFrame m.gdt entry (stack_top (current m)) m.mem,
  refl,
  ground arith,
  λ j h. ground arith,
  init_registers_outside m.gdt entry (stack_top (current m)) m.mem,
)
