-- ===== src/Syscalls/User.antt =====
-- The user side of the system calls, in source/src/kernel.cpp: each loads the number into eax, some an
-- argument into ebx, and raises interrupt 0x80; some read a register of the frame that is restored.
-- The frame of the interrupt stands at `esp`; the other registers in it are as they were.
use implementing_os_and_syst.Base.{
  ℕ, ◌+◌, ◌≡◌, ◌≢◌, refl, ap, subst, ◌∙◌, Option, some, none, arith,
}
use implementing_os_and_syst.Machine.{write}
use implementing_os_and_syst.Machine.CpuState
use implementing_os_and_syst.Multitasking.{
  TaskManager, current, get_eax_val, get_pid, get_priority, set_current_priority,
}
use implementing_os_and_syst.Syscalls.{
  handle_interrupt, perform, select, store, sys_fork, sys_getpid, sys_print_table,
  sys_double_return, sys_waitpid, sys_exit, sys_execve, sys_set_priority, sys_intrpt_count,
  sys_add_aging, sys_get_priority, sys_set_state,
}

abbrev pub enter : ℕ → ℕ → TaskManager → TaskManager
enter number esp m = record m { mem = write m.mem (CpuState.eax esp) number }

abbrev pub enter_with : ℕ → ℕ → ℕ → TaskManager → TaskManager
enter_with number argument esp m = record m {
  mem = write (write m.mem (CpuState.eax esp) number) (CpuState.ebx esp) argument;
}

-- The state behind the call, with the value of a register.
abbrev pub result : (ℕ → ℕ) → Option (TaskManager × ℕ) → Option (TaskManager × ℕ)
result register none = none
result register (some r) = some (r.0, r.0.mem (register r.1))

module _ (esp nested : ℕ) where
  unfoldable pub sys_process_table : TaskManager → Option (TaskManager × ℕ)
  sys_process_table m = handle_interrupt esp nested (enter sys_print_table esp m)

  unfoldable pub sysfork : TaskManager → Option (TaskManager × ℕ)
  sysfork m = handle_interrupt esp nested (enter sys_fork esp m)

  unfoldable pub sysfork_return : TaskManager → Option (TaskManager × ℕ)
  sysfork_return m =
      result CpuState.ebx (handle_interrupt esp nested (enter sys_double_return esp m))

  unfoldable pub getpid : TaskManager → Option (TaskManager × ℕ)
  getpid m = result CpuState.ecx (handle_interrupt esp nested (enter sys_getpid esp m))

  unfoldable pub set_priority : ℕ → TaskManager → Option (TaskManager × ℕ)
  set_priority priority m = handle_interrupt esp nested (enter_with sys_set_priority priority esp m)

  unfoldable pub set_task_state : ℕ → TaskManager → Option (TaskManager × ℕ)
  set_task_state state m = handle_interrupt esp nested (enter_with sys_set_state state esp m)

  unfoldable pub user_waitpid : ℕ → TaskManager → Option (TaskManager × ℕ)
  user_waitpid pid m = handle_interrupt esp nested (enter_with sys_waitpid pid esp m)

  unfoldable pub sysexit : TaskManager → Option (TaskManager × ℕ)
  sysexit m = handle_interrupt esp nested (enter sys_exit esp m)

  unfoldable pub sysexecve : ℕ → TaskManager → Option (TaskManager × ℕ)
  sysexecve entry m = handle_interrupt esp nested (enter_with sys_execve entry esp m)

  unfoldable pub sys_interrupt_count : TaskManager → Option (TaskManager × ℕ)
  sys_interrupt_count m =
      result CpuState.edx (handle_interrupt esp nested (enter sys_intrpt_count esp m))

  unfoldable pub user_get_priority : TaskManager → Option (TaskManager × ℕ)
  user_get_priority m =
      result CpuState.edx (handle_interrupt esp nested (enter sys_get_priority esp m))

  unfoldable pub set_aging : ℕ → TaskManager → Option (TaskManager × ℕ)
  set_aging pid m = handle_interrupt esp nested (enter_with sys_add_aging pid esp m)

-- What a call that reads a value leaves: the value, and all but the memory as it was.
pub record Reads (m : TaskManager) (v : ℕ) (r : Option (TaskManager × ℕ)) : Type 0 where
  pub after : TaskManager
  pub value_is : r ≡ some (after, v)
  pub same_tasks : after.tasks ≡ m.tasks
  pub same_current : after.current_task ≡ m.current_task
  pub same_count : after.num_tasks ≡ m.num_tasks

write_same : (mem : ℕ → ℕ) (a v : ℕ) → write mem a v a ≡ v
write_same mem a v = ground arith

write_behind : (mem : ℕ → ℕ) (esp n v : ℕ) → write (write mem esp n) (esp + 4) v esp ≡ n
write_behind mem esp n v = ground arith

module _ (esp nested : ℕ) where
  -- A call dispatches on its number.
  pub enter_lem :
      (number : ℕ) (m : TaskManager)
      → handle_interrupt esp nested (enter number esp m)
        ≡ perform (select number) esp nested (enter number esp m)
  unfolding handle_interrupt
  enter_lem number m =
      ap (λ k. perform (select k) esp nested (enter number esp m)) (write_same m.mem esp number)

  pub enter_with_lem :
      (number argument : ℕ) (m : TaskManager)
      → handle_interrupt esp nested (enter_with number argument esp m)
        ≡ perform (select number) esp nested (enter_with number argument esp m)
  unfolding handle_interrupt
  enter_with_lem number argument m =
      ap (λ k. perform (select k) esp nested (enter_with number argument esp m))
        (write_behind m.mem esp number argument)

  -- A call that stores `v` in a register of its frame, and reads it.
  reads :
      (register : ℕ → ℕ) (v number : ℕ) (m : TaskManager)
      → perform (select number) esp nested (enter number esp m)
        ≡ some (store (register esp) v (enter number esp m), esp)
      → Reads m v (result register (handle_interrupt esp nested (enter number esp m)))
  reads register v number m e = record {
    after = store (register esp) v (enter number esp m);
    value_is =
        ap (result register) (enter_lem number m ∙ e)
        ∙ ap (λ k. some (store (register esp) v (enter number esp m), k))
            (write_same (enter number esp m).mem (register esp) v);
    same_tasks = refl;
    same_current = refl;
    same_count = refl;
  }

  -- getpid, sys_get_priority, sys_interrupt_count and sysfork_return give the caller its pid, its
  -- priority, the count of the scheduler, and its value of the last fork, and leave the table, the current
  -- task and the number of tasks as they were.
  pub getters-Reads :
      (m : TaskManager)
      → Reads m (current m).pid (getpid esp nested m)
        × Reads m (current m).priority (user_get_priority esp nested m)
        × Reads m m.interrupt_count (sys_interrupt_count esp nested m)
        × Reads m (current m).eax_value (sysfork_return esp nested m)
  unfolding getpid user_get_priority sys_interrupt_count sysfork_return select perform get_pid
      get_priority get_eax_val
  getters-Reads m = (
    reads CpuState.ecx (current m).pid sys_getpid m refl,
    reads CpuState.edx (current m).priority sys_get_priority m refl,
    reads CpuState.edx m.interrupt_count sys_intrpt_count m refl,
    reads CpuState.ebx (current m).eax_value sys_double_return m refl,
  )

  -- A priority that a task gives itself is what it reads back, and the one that the scheduler compares; the
  -- other tasks keep theirs.
  pub set_priority_lem :
      (p : ℕ) (m : TaskManager)
      → (m' : TaskManager) × (set_priority esp nested p m ≡ some (m', esp))
        × Reads m' p (user_get_priority esp nested m')
        × ((m'.tasks m.current_task).priority ≡ p)
        × ((j : ℕ) → j ≢ m.current_task → m'.tasks j ≡ m.tasks j)
  unfolding set_priority user_get_priority select perform get_priority set_current_priority
  set_priority_lem p m =
      let m' = set_current_priority p (enter_with sys_set_priority p esp m) in
      let own : (m'.tasks m.current_task).priority ≡ p = ground arith in
      (
        m',
        enter_with_lem sys_set_priority p m
            ∙ ap (λ k. some (set_current_priority k (enter_with sys_set_priority p esp m), esp))
                (write_same (write m.mem esp sys_set_priority) (esp + 4) p),
        subst (λ k. Reads m' k (user_get_priority esp nested m')) own
            (reads CpuState.edx (current m').priority sys_get_priority m' refl),
        own,
        λ j o. ground arith,
      )
