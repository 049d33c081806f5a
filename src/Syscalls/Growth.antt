-- ===== src/Syscalls/Growth.antt =====
-- No system call of source/src/syscalls.cpp, and no Schedule, takes a task out of the table.
use implementing_os_and_syst.Base.{ℕ, ◌≤◌, ◌≡◌, refl, inl, inr, Bool-cases, ◌==◌, arith}
use implementing_os_and_syst.Machine.CpuState
use implementing_os_and_syst.Multitasking.{
  TaskManager, Outcome, returns, reschedules, waitpid, exit, ready, blocked,
}
use implementing_os_and_syst.Multitasking.Growth.{
  fork_grows, waitpid_keeps, exit_keeps, execve_keeps, set_current_state_keeps,
  set_current_priority_keeps, set_aging_pid_keeps,
}
use implementing_os_and_syst.Multitasking.Table.{print_process_table-frame}
use implementing_os_and_syst.Multitasking.Scheduler.Growth.{EndsGrown, schedule-EndsGrown}
use implementing_os_and_syst.Syscalls

finish-EndsGrown :
    (n esp nested : ℕ) (m : TaskManager) (o : Outcome)
    → n ≤ m.num_tasks
    → EndsGrown n (Syscalls.finish esp nested m o)
unfolding Syscalls.finish
finish-EndsGrown n esp nested m (returns x) h = (m, esp, refl, h)
finish-EndsGrown n esp nested m reschedules h =
    let (m', esp', e, g) = schedule-EndsGrown nested m in (m', esp', e, omega (arith, h, g))

set_state_by_keeps : (x : ℕ) (m : TaskManager) → (Syscalls.set_state_by x m).num_tasks ≡ m.num_tasks
unfolding Syscalls.set_state_by
set_state_by_keeps x m = elim (Bool-cases (x == 0)) [
  | inl e ↦ rw e (set_current_state_keeps ready m)
  | inr e ↦ rw e (elim (Bool-cases (x == 2)) [
    | inl f ↦ rw f (set_current_state_keeps blocked m)
    | inr f ↦ rw f refl
  ])
]

perform-EndsGrown :
    (c : Syscalls.Syscall) (esp nested : ℕ) (m : TaskManager)
    → EndsGrown m.num_tasks (Syscalls.perform c esp nested m)
unfolding Syscalls.perform
perform-EndsGrown Syscalls.fork_call esp nested m = (_, esp, refl, fork_grows esp m)
perform-EndsGrown Syscalls.double_return_call esp nested m = (_, esp, refl, omega arith)
perform-EndsGrown Syscalls.getpid_call esp nested m = (_, esp, refl, omega arith)
perform-EndsGrown Syscalls.print_table_call esp nested m =
    let f = print_process_table-frame m in (_, esp, refl, omega (arith, f.0))
perform-EndsGrown Syscalls.waitpid_call esp nested m =
    let pid = m.mem (CpuState.ebx esp) in
    finish-EndsGrown m.num_tasks esp nested (waitpid pid m).0 (waitpid pid m).1
      (omega (arith, waitpid_keeps pid m))
perform-EndsGrown Syscalls.exit_call esp nested m =
    finish-EndsGrown m.num_tasks esp nested (exit m).0 (exit m).1 (omega (arith, exit_keeps m))
perform-EndsGrown Syscalls.execve_call esp nested m =
    (_, _, refl, omega (arith, execve_keeps (m.mem (CpuState.ebx esp)) m))
perform-EndsGrown Syscalls.set_priority_call esp nested m =
    (_, esp, refl, omega (arith, set_current_priority_keeps (m.mem (CpuState.ebx esp)) m))
perform-EndsGrown Syscalls.get_priority_call esp nested m = (_, esp, refl, omega arith)
perform-EndsGrown Syscalls.intrpt_count_call esp nested m = (_, esp, refl, omega arith)
perform-EndsGrown Syscalls.add_aging_call esp nested m =
    (_, esp, refl, omega (arith, set_aging_pid_keeps (m.mem (CpuState.ebx esp)) m))
perform-EndsGrown Syscalls.set_state_call esp nested m =
    (_, esp, refl, omega (arith, set_state_by_keeps (m.mem (CpuState.ebx esp)) m))
perform-EndsGrown Syscalls.default_call esp nested m = (m, esp, refl, omega arith)

pub handle_interrupt-EndsGrown :
    (esp nested : ℕ) (m : TaskManager)
    → EndsGrown m.num_tasks (Syscalls.handle_interrupt esp nested m)
unfolding Syscalls.handle_interrupt
handle_interrupt-EndsGrown esp nested m =
    perform-EndsGrown (Syscalls.select (m.mem (CpuState.eax esp))) esp nested m
