-- ===== src/Syscalls/Values.antt =====
-- Every system call of source/src/syscalls.cpp but SYS_FORK keeps the tasks and the values of their forks.
use implementing_os_and_syst.Base.{ℕ, ap, refl, inl, inr, Bool-cases, ◌==◌}
use implementing_os_and_syst.Machine.CpuState
use implementing_os_and_syst.Multitasking.{
  Task, TaskManager, Outcome, returns, reschedules, waitpid, exit, ready, blocked,
}
use implementing_os_and_syst.Multitasking.Values.{
  Same, Same-refl, Same-trans, waitpid-Same, exit-Same, execve-Same, set_current_state-Same,
  set_current_priority-Same, set_aging_pid-Same,
}
use implementing_os_and_syst.Multitasking.Table.{
  print_process_table, print_process_table-frame, print_process_table_tasks,
}
use implementing_os_and_syst.Multitasking.Scheduler.Values.{EndsSame, schedule-EndsSame}
use implementing_os_and_syst.Syscalls

store-Same : (a v : ℕ) (m : TaskManager) → Same m (Syscalls.store a v m)
store-Same a v m = record { count = refl; values = λ i. refl }

print-Same : (m : TaskManager) → Same m (print_process_table m)
print-Same m = record {
  count = (print_process_table-frame m).0;
  values = λ i. ap (λ (t : ℕ → Task). (t i).eax_value) (print_process_table_tasks m);
}

finish-EndsSame :
    (esp nested : ℕ) (m b : TaskManager) (o : Outcome)
    → Same m b
    → EndsSame m (Syscalls.finish esp nested b o)
unfolding Syscalls.finish
finish-EndsSame esp nested m b (returns x) h = (b, esp, refl, h)
finish-EndsSame esp nested m b reschedules h =
    let (m', esp', e, g) = schedule-EndsSame nested b in (m', esp', e, Same-trans m b m' h g)

set_state_by-Same : (x : ℕ) (m : TaskManager) → Same m (Syscalls.set_state_by x m)
unfolding Syscalls.set_state_by
set_state_by-Same x m = elim (Bool-cases (x == 0)) [
  | inl e ↦ rw e (set_current_state-Same ready m)
  | inr e ↦ rw e (elim (Bool-cases (x == 2)) [
    | inl f ↦ rw f (set_current_state-Same blocked m)
    | inr f ↦ rw f (Same-refl m)
  ])
]

abbrev pub IsOther : Syscalls.Syscall → Type 0
IsOther Syscalls.fork_call = ⊥
IsOther _ = Unit

pub perform-EndsSame :
    (c : Syscalls.Syscall) (esp nested : ℕ) (m : TaskManager)
    → IsOther c
    → EndsSame m (Syscalls.perform c esp nested m)
unfolding Syscalls.perform
perform-EndsSame Syscalls.fork_call esp nested m o = absurd o
perform-EndsSame Syscalls.double_return_call esp nested m o = (_, esp, refl, store-Same _ _ m)
perform-EndsSame Syscalls.getpid_call esp nested m o = (_, esp, refl, store-Same _ _ m)
perform-EndsSame Syscalls.print_table_call esp nested m o = (_, esp, refl, print-Same m)
perform-EndsSame Syscalls.waitpid_call esp nested m o =
    let pid = m.mem (CpuState.ebx esp) in
    finish-EndsSame esp nested m (waitpid pid m).0 (waitpid pid m).1 (waitpid-Same pid m)
perform-EndsSame Syscalls.exit_call esp nested m o =
    finish-EndsSame esp nested m (exit m).0 (exit m).1 (exit-Same m)
perform-EndsSame Syscalls.execve_call esp nested m o =
    (_, _, refl, execve-Same (m.mem (CpuState.ebx esp)) m)
perform-EndsSame Syscalls.set_priority_call esp nested m o =
    (_, esp, refl, set_current_priority-Same (m.mem (CpuState.ebx esp)) m)
perform-EndsSame Syscalls.get_priority_call esp nested m o = (_, esp, refl, store-Same _ _ m)
perform-EndsSame Syscalls.intrpt_count_call esp nested m o = (_, esp, refl, store-Same _ _ m)
perform-EndsSame Syscalls.add_aging_call esp nested m o =
    (_, esp, refl, set_aging_pid-Same (m.mem (CpuState.ebx esp)) m)
perform-EndsSame Syscalls.set_state_call esp nested m o =
    (_, esp, refl, set_state_by-Same (m.mem (CpuState.ebx esp)) m)
perform-EndsSame Syscalls.default_call esp nested m o = (m, esp, refl, Same-refl m)
