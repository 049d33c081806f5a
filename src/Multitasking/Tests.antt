-- ===== src/Multitasking/Tests.antt =====
-- A small process table, and what the operations of source/src/multitasking.cpp do to it.
use implementing_os_and_syst.Base.{ℕ, ◌+◌, ◌*◌, ◌≡◌, ◌<◌, ◌≤◌, ◌≢◌, refl, inl, [], arith, ◌⊎◌}
use implementing_os_and_syst.Machine.{minus_one}
use implementing_os_and_syst.Machine.CpuState
use implementing_os_and_syst.Multitasking.{
  State, Task, TaskManager, max_tasks, fork, waitpid, exit, find_task_by_pid, returns, reschedules,
  ready, running, blocked, terminated,
}
use implementing_os_and_syst.Multitasking.Invariant.{IsValid}
use implementing_os_and_syst.Multitasking.Fork.{fork_lem, fork_shares_frame}
use implementing_os_and_syst.Multitasking.Wait.{waitpid_lem, exit_lem}

-- The entry `i`, with a stack of its own.
abbrev pub task : ℕ → State → ℕ → Task
task i s waiting = record {
  cpustate = 0x10000 + 4096 * i;
  stack = 0x10000 + 4096 * i;
  eax_value = 0;
  pid = i;
  ppid = 0;
  priority = 5;
  state = s;
  waiting_process = waiting;
}

abbrev pub table : ℕ → State → TaskManager
table n s = record {
  mem = λ a. 0;
  tasks = λ i. task i s 0;
  gdt = 0x1000;
  num_tasks = n;
  current_task = 1;
  interrupt_count = 0;
  aging_pid = minus_one;
  next_pid = n;
  out = [];
}

pub table-IsValid : (n : ℕ) (s : State) → n ≤ max_tasks → 1 < n → IsValid (table n s)
table-IsValid n s h k = record {
  bounded = h;
  next_is_count = refl;
  numbered = λ i l. refl;
  current_in = inl k;
}

find_second : find_task_by_pid 2 (table 3 ready) ≡ 2
unfolding find_task_by_pid
find_second = refl

find_none : find_task_by_pid 3 (table 3 ready) ≡ minus_one
unfolding find_task_by_pid
find_none = refl

fork_lem_example : (fork 0x800 (table 3 running)).tasks 3 ≡ record (task 3 running 0) {
  cpustate = 0x13FCC;
  eax_value = 0;
  pid = 3;
  ppid = 1;
  priority = minus_one;
  state = ready;
}
fork_lem_example =
    (fork_lem 0x800 (table 3 running) (omega arith) (omega arith) (inl (omega arith))
      (inl (omega arith))).0

waitpid_blocks : ((waitpid 2 (table 3 running)).0.tasks 1).state ≡ blocked
unfolding waitpid
waitpid_blocks = refl

waitpid_lem_example :
    ((3 ≤ 2) × (waitpid 2 (table 3 running) ≡ (table 3 running, returns minus_one)))
    ⊎ (((2 < 3)
          × (running ≡ terminated)
          × (waitpid 2 (table 3 running) ≡ (table 3 running, returns 0)))
        ⊎ ((2 < 3)
            × (running ≢ terminated)
            × ((waitpid 2 (table 3 running)).1 ≡ reschedules)
            × (((waitpid 2 (table 3 running)).0.tasks 1).state ≡ blocked)
            × (((waitpid 2 (table 3 running)).0.tasks 2).waiting_process ≡ 1)
            × ((j : ℕ)
                → j ≢ 1
                → j ≢ 2
                → (waitpid 2 (table 3 running)).0.tasks j ≡ task j running 0)))
waitpid_lem_example =
    waitpid_lem 2 (table 3 running) (table-IsValid 3 running (omega arith) (omega arith))

exit_lem_example :
    (exit (table 3 running)).0.tasks 1 ≡ record (task 1 running 0) { state = terminated }
exit_lem_example = (exit_lem (table 3 running) (omega arith)).0

-- Task 1, with `ebp` in its stack.
abbrev in_stack : TaskManager
in_stack = record (table 3 running) { mem = λ a. 0x11800 }

fork_shares_frame_example :
    let m' = fork 0x800 in_stack in
    let ebp = m'.mem (CpuState.ebp 0x13FCC) in
    ((m'.tasks 3).cpustate ≡ 0x13FCC) × (ebp ≡ 0x11800) × ((ebp < 0x13000) ⊎ (0x13000 + 4096 ≤ ebp))
fork_shares_frame_example =
    fork_shares_frame 0x800 in_stack (omega arith) (omega arith) (inl (omega arith))
      (inl (omega arith)) (omega arith) (omega arith)
