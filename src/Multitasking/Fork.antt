-- ===== src/Multitasking/Fork.antt =====
-- TaskManager::fork of source/src/multitasking.cpp: the child, the parent and the memory.
use implementing_os_and_syst.Base.{
  ℕ, ◌+◌, ◌*◌, ◌%◌, ◌≤◌, ◌<◌, ◌≡◌, ◌≢◌, sym, ap, subst, ◌∙◌, ◌⊎◌, arith,
}
use implementing_os_and_syst.Machine.{Memory, minus_one, word_mod, copy_state, copy_stack}
use implementing_os_and_syst.Machine.Copy.{
  copy_stack_inside, copy_stack_outside, copy_state_inside, copy_state_outside,
}
use implementing_os_and_syst.Machine.CpuState
use implementing_os_and_syst.Multitasking.{
  Task, TaskManager, ready, max_tasks, current, stack_top, init_registers, fork, fork_memory,
  fork_tasks, with_child,
}
use implementing_os_and_syst.Multitasking.Create.{init_registers_outside}

-- The two ranges, of `n` and of `k` bytes, share no byte.
abbrev pub Disjoint : ℕ → ℕ → ℕ → ℕ → Type 0
Disjoint a n b k = (a + n ≤ b) ⊎ (b + k ≤ a)

-- What a fork does to the memory, where the frame of the call and the parent's stack lie apart from
-- the child's stack.
pub record Forked (frame parent child pid : ℕ) (m m' : Memory) : Type 0 where
  pub child_eax : m' (CpuState.eax (child + 4044)) ≡ 0
  pub parent_eax : m' (CpuState.eax frame) ≡ pid
  pub child_frame : (k : ℕ) → 0 < k → k < 13 → m' (child + 4044 + 4 * k) ≡ m (frame + 4 * k)
  pub child_stack : (k : ℕ) → k < 1011 → m' (child + 4 * k) ≡ m (parent + 4 * k)
  pub others : (a : ℕ) → (a < child) ⊎ (child + 4096 ≤ a) → a ≢ CpuState.eax frame → m' a ≡ m a

module _ (gdt frame pid : ℕ) (parent child : Task) (m : Memory)
    (apart : Disjoint parent.stack 4096 child.stack 4096)
    (away : Disjoint frame 52 child.stack 4096) where
  top : ℕ
  top = stack_top child

  m1 : Memory
  m1 = init_registers gdt (m (CpuState.eip parent.cpustate)) (stack_top child) m

  m2 : Memory
  m2 = copy_stack parent.stack child.stack m1

  m3 : Memory
  m3 = copy_state frame (stack_top child) m2

  m1_outside : (a : ℕ) → (a < child.stack) ⊎ (child.stack + 4096 ≤ a) → m1 a ≡ m a
  unfolding m1
  m1_outside a h = init_registers_outside gdt _ (stack_top child) m a (omega arith)

  m2_outside : (a : ℕ) → (a < child.stack) ⊎ (child.stack + 4096 ≤ a) → m2 a ≡ m a
  unfolding m2
  m2_outside a h = copy_stack_outside parent.stack child.stack m1 a h ∙ m1_outside a h

  m2_inside : (k : ℕ) → k < 1024 → m2 (child.stack + 4 * k) ≡ m (parent.stack + 4 * k)
  unfolding m2
  m2_inside k h =
      copy_stack_inside parent.stack child.stack m1 k (omega arith) h
      ∙ m1_outside (parent.stack + 4 * k) (omega arith)

  m3_outside : (a : ℕ) → (a < stack_top child) ⊎ (child.stack + 4096 ≤ a) → m3 a ≡ m2 a
  unfolding m3
  m3_outside a h = copy_state_outside frame (stack_top child) m2 a (omega arith)

  m3_inside : (k : ℕ) → k < 13 → m3 (stack_top child + 4 * k) ≡ m (frame + 4 * k)
  unfolding m3
  m3_inside k h =
      copy_state_inside frame (stack_top child) m2 k (omega arith) h
      ∙ m2_outside (frame + 4 * k) (omega arith)

  -- The last two stores.
  final :
      (a : ℕ) → a ≢ stack_top child → a ≢ frame → fork_memory gdt frame parent child pid m a ≡ m3 a
  unfolding fork_memory m3 m2 m1
  final a p q = ground arith

  final_child : fork_memory gdt frame parent child pid m (stack_top child) ≡ 0
  unfolding fork_memory
  final_child = ground arith

  final_parent : fork_memory gdt frame parent child pid m frame ≡ pid
  unfolding fork_memory
  final_parent = ground arith

  pub fork_memory-Forked :
      Forked frame parent.stack child.stack pid m (fork_memory gdt frame parent child pid m)
  fork_memory-Forked = record {
    child_eax = ap (fork_memory gdt frame parent child pid m) (omega arith) ∙ final_child;
    parent_eax = final_parent;
    child_frame = λ k lo hi.
        ap (fork_memory gdt frame parent child pid m) (omega arith)
        ∙ final (stack_top child + 4 * k) (omega arith) (omega arith)
        ∙ m3_inside k hi;
    child_stack = λ k h.
        final (child.stack + 4 * k) (omega arith) (omega arith)
        ∙ m3_outside (child.stack + 4 * k) (omega arith)
        ∙ m2_inside k (omega arith);
    others = λ a h ne. final a (omega arith) ne ∙ m3_outside a (omega arith) ∙ m2_outside a h;
  }

fork-mem :
    (frame : ℕ) (m : TaskManager)
    → m.num_tasks < max_tasks
    → (fork frame m).mem
      ≡ fork_memory m.gdt frame (current m) (m.tasks m.num_tasks) m.next_pid m.mem
unfolding fork
fork-mem frame m room = ground arith

-- fork with room in the table. The new entry at `numTasks` has the next pid, the caller's pid as its
-- parent, priority -1 (not the caller's) and state Ready, resumes at the top of its stack, and has 0
-- as its value for the double return; the caller has the child's pid as that value; every other
-- entry is unchanged. In memory the child has a copy of the caller's stack and of the frame of the
-- call, with eax 0, the caller's frame has eax set to the child's pid, and nothing else changes. The
-- caller is another entry than the new one, and the frame and the caller's stack lie apart from the
-- stack of the new entry.
pub fork_lem :
    (frame : ℕ) (m : TaskManager)
    → m.num_tasks < max_tasks
    → m.current_task ≢ m.num_tasks
    → Disjoint (current m).stack 4096 (m.tasks m.num_tasks).stack 4096
    → Disjoint frame 52 (m.tasks m.num_tasks).stack 4096
    → let m' = fork frame m in
      let child = m.tasks m.num_tasks in
      (m'.tasks m.num_tasks ≡ record child {
        cpustate = stack_top child;
        eax_value = 0;
        pid = m.next_pid;
        ppid = (current m).pid;
        priority = minus_one;
        state = ready;
      })
      × (m'.tasks m.current_task ≡ record (current m) { eax_value = m.next_pid })
      × ((j : ℕ) → j ≢ m.current_task → j ≢ m.num_tasks → m'.tasks j ≡ m.tasks j)
      × (m'.num_tasks ≡ m.num_tasks + 1)
      × (m'.next_pid ≡ (m.next_pid + 1) % word_mod)
      × Forked frame (current m).stack child.stack m.next_pid m.mem m'.mem
unfolding fork fork_tasks with_child
fork_lem frame m room ne apart away = (
  ground arith,
  ground arith,
  λ j p q. ground arith,
  ground arith,
  ground arith,
  subst (Forked frame (current m).stack (m.tasks m.num_tasks).stack m.next_pid m.mem)
      (sym (fork-mem frame m room))
      (fork_memory-Forked m.gdt frame m.next_pid (current m) (m.tasks m.num_tasks) m.mem apart
        away),
)

-- fork on a full table: the caller's value for the double return is -1, and nothing else changes.
pub fork_full_lem :
    (frame : ℕ) (m : TaskManager)
    → max_tasks ≤ m.num_tasks
    → let m' = fork frame m in
      (m'.tasks m.current_task ≡ record (current m) { eax_value = minus_one })
      × ((j : ℕ) → j ≢ m.current_task → m'.tasks j ≡ m.tasks j)
      × (m'.num_tasks ≡ m.num_tasks)
      × (m'.next_pid ≡ m.next_pid)
      × (m'.mem ≡ m.mem)
unfolding fork
fork_full_lem frame m full =
    (ground arith, λ j h. ground arith, ground arith, ground arith, ground arith)

pub fork-current_task : (frame : ℕ) (m : TaskManager) → (fork frame m).current_task ≡ m.current_task
unfolding fork
fork-current_task frame m = ground arith

-- The child of a fork resumes with the caller's `ebp`: where the caller's locals lie in the caller's stack,
-- the child reads and writes those, and not the copy in its own stack.
pub fork_shares_frame :
    (frame : ℕ) (m : TaskManager)
    → m.num_tasks < max_tasks
    → m.current_task ≢ m.num_tasks
    → Disjoint (current m).stack 4096 (m.tasks m.num_tasks).stack 4096
    → Disjoint frame 52 (m.tasks m.num_tasks).stack 4096
    → (current m).stack ≤ m.mem (CpuState.ebp frame)
    → m.mem (CpuState.ebp frame) < (current m).stack + 4096
    → let m' = fork frame m in
      let child = m.tasks m.num_tasks in
      let ebp = m'.mem (CpuState.ebp (stack_top child)) in
      ((m'.tasks m.num_tasks).cpustate ≡ stack_top child)
      × (ebp ≡ m.mem (CpuState.ebp frame))
      × ((ebp < child.stack) ⊎ (child.stack + 4096 ≤ ebp))
fork_shares_frame frame m room ne apart away low high =
    let f = fork_lem frame m room ne apart away in
    let kept = f.5.child_frame 6 (omega arith) (omega arith) in
    let same : (fork frame m).mem (CpuState.ebp (stack_top (m.tasks m.num_tasks)))
        ≡ m.mem (CpuState.ebp frame) =
      ap (fork frame m).mem (omega arith) ∙ kept in
    (ap (λ (t : Task). t.cpustate) f.0, same, omega (arith, same))
