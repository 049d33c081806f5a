-- ===== src/Syscalls/Laws.antt =====
-- SyscallHandler::HandleInterrupt as a whole, over every call number.
use implementing_os_and_syst.Base.{
  ℕ, ◌<◌, ◌≡◌, ◌≢◌, refl, ap, ◌∙◌, ◌⊎◌, inl, inr, Option, some, arith,
}
use implementing_os_and_syst.Machine.CpuState
use implementing_os_and_syst.Multitasking.{
  TaskManager, Task, ready, blocked, Outcome, returns, reschedules, fork, execve, max_tasks,
  current, get_eax_val_lem,
}
use implementing_os_and_syst.Multitasking.Table.{print_process_table, print_process_table-frame}
use implementing_os_and_syst.Multitasking.Invariant.{
  IsValid, keep, fork-IsValid, waitpid-IsValid, exit-IsValid, execve-IsValid, set_priority-IsValid,
  set_state-IsValid, set_aging-IsValid,
}
use implementing_os_and_syst.Multitasking.Fork.{Disjoint, fork_lem, fork-current_task}
use implementing_os_and_syst.Multitasking.Scheduler.{schedule}
use implementing_os_and_syst.Multitasking.Scheduler.Step.{schedule-Choice}
use implementing_os_and_syst.Multitasking.Scheduler.Keeps.{schedule-IsValid}
use implementing_os_and_syst.Syscalls.{
  Syscall, fork_call, double_return_call, getpid_call, print_table_call, waitpid_call, exit_call,
  execve_call, set_priority_call, get_priority_call, intrpt_count_call, add_aging_call,
  set_state_call, default_call, select, perform, store, finish, set_state_by, handle_interrupt,
  sys_fork, sys_double_return,
}

-- The call ends, and the process table that it leaves is valid.
abbrev pub EndsValid : Option (TaskManager × ℕ) → Type 0
EndsValid r = (m' : TaskManager) × (esp' : ℕ) × (r ≡ some (m', esp')) × IsValid m'

ends : (m : TaskManager) (esp : ℕ) → IsValid m → EndsValid (some (m, esp))
ends m esp v = (m, esp, refl, v)

store-IsValid : (a v : ℕ) (m : TaskManager) → IsValid m → IsValid (store a v m)
store-IsValid a x m v = keep m (store a x m) v refl refl refl (λ i. refl)

print-IsValid : (m : TaskManager) → IsValid m → IsValid (print_process_table m)
print-IsValid m v =
    let f = print_process_table-frame m in keep m (print_process_table m) v f.0 f.1 f.2 f.3

pub schedule-EndsValid : (frame : ℕ) (m : TaskManager) → IsValid m → EndsValid (schedule frame m)
schedule-EndsValid frame m v = elim (schedule-Choice frame m) [
  | inl (_, q) ↦ (m, frame, q, v)
  | inr (next, _, q, _) ↦ (_, _, q, schedule-IsValid frame m _ _ v q)
]

finish-EndsValid :
    (esp nested : ℕ) (m : TaskManager) (o : Outcome) → IsValid m → EndsValid (finish esp nested m o)
unfolding finish
finish-EndsValid esp nested m (returns x) v = ends m esp v
finish-EndsValid esp nested m reschedules v = schedule-EndsValid nested m v

set_state_by-IsValid : (x : ℕ) (m : TaskManager) → IsValid m → IsValid (set_state_by x m)
unfolding set_state_by
set_state_by-IsValid x m v =
    ground (arith, set_state-IsValid ready m v, set_state-IsValid blocked m v)

perform-EndsValid :
    (c : Syscall) (esp nested : ℕ) (m : TaskManager)
    → IsValid m
    → EndsValid (perform c esp nested m)
unfolding perform
perform-EndsValid fork_call esp nested m v = ends _ esp (fork-IsValid esp m v)
perform-EndsValid double_return_call esp nested m v = ends _ esp (store-IsValid _ _ m v)
perform-EndsValid getpid_call esp nested m v = ends _ esp (store-IsValid _ _ m v)
perform-EndsValid print_table_call esp nested m v = ends _ esp (print-IsValid m v)
perform-EndsValid waitpid_call esp nested m v =
    finish-EndsValid esp nested _ _ (waitpid-IsValid (m.mem (CpuState.ebx esp)) m v)
perform-EndsValid exit_call esp nested m v = finish-EndsValid esp nested _ _ (exit-IsValid m v)
perform-EndsValid execve_call esp nested m v =
    ends _ (execve (m.mem (CpuState.ebx esp)) m).1 (execve-IsValid (m.mem (CpuState.ebx esp)) m v)
perform-EndsValid set_priority_call esp nested m v = ends _ esp (set_priority-IsValid _ m v)
perform-EndsValid get_priority_call esp nested m v = ends _ esp (store-IsValid _ _ m v)
perform-EndsValid intrpt_count_call esp nested m v = ends _ esp (store-IsValid _ _ m v)
perform-EndsValid add_aging_call esp nested m v = ends _ esp (set_aging-IsValid _ m v)
perform-EndsValid set_state_call esp nested m v =
    ends _ esp (set_state_by-IsValid (m.mem (CpuState.ebx esp)) m v)
perform-EndsValid default_call esp nested m v = ends m esp v

-- Every system call, whatever its number and arguments, ends (also where it reschedules), and leaves
-- a valid process table valid.
pub handle_interrupt-EndsValid :
    (esp nested : ℕ) (m : TaskManager) → IsValid m → EndsValid (handle_interrupt esp nested m)
handle_interrupt-EndsValid esp nested m v =
    unfold handle_interrupt in perform-EndsValid (select (m.mem (CpuState.eax esp))) esp nested m v

-- A number that names no system call changes nothing.
pub handle_interrupt_unknown :
    (esp nested : ℕ) (m : TaskManager)
    → (m.mem (CpuState.eax esp) < 2) ⊎ (13 < m.mem (CpuState.eax esp))
    → handle_interrupt esp nested m ≡ some (m, esp)
unfolding handle_interrupt
handle_interrupt_unknown esp nested m h = ground arith

double_return_lem :
    (esp nested : ℕ) (m : TaskManager) (v : ℕ)
    → m.mem (CpuState.eax esp) ≡ sys_double_return
    → (current m).eax_value ≡ v
    → handle_interrupt esp nested m ≡ some (store (CpuState.ebx esp) v m, esp)
unfolding handle_interrupt
double_return_lem esp nested m v h e =
    ground arith ∙ ap (λ (x : ℕ). some (store (CpuState.ebx esp) x m, esp)) (get_eax_val_lem m ∙ e)

fork_call_lem :
    (esp nested : ℕ) (m : TaskManager)
    → m.mem (CpuState.eax esp) ≡ sys_fork
    → handle_interrupt esp nested m ≡ some (fork esp m, esp)
unfolding handle_interrupt
fork_call_lem esp nested m h = ground arith

-- fork returns twice. After the call SYS_FORK with room in the table, the call SYS_DOUBLE_RETURN
-- stores the child's pid in ebx of the frame of a caller that is the parent, and 0 where the child
-- is the current task.
pub fork_returns_twice :
    (esp nested frame : ℕ) (m : TaskManager)
    → m.mem (CpuState.eax esp) ≡ sys_fork
    → m.num_tasks < max_tasks
    → m.current_task ≢ m.num_tasks
    → Disjoint (current m).stack 4096 (m.tasks m.num_tasks).stack 4096
    → Disjoint esp 52 (m.tasks m.num_tasks).stack 4096
    → (m' : TaskManager) × (handle_interrupt esp nested m ≡ some (m', esp))
      × ((mem : ℕ → ℕ)
          → mem (CpuState.eax frame) ≡ sys_double_return
          → (handle_interrupt frame nested (record m' { mem = mem })
              ≡ some (store (CpuState.ebx frame) m.next_pid (record m' { mem = mem }), frame))
            × (handle_interrupt frame nested (record m' { mem = mem; current_task = m.num_tasks })
                ≡ some (
                  store
                      (CpuState.ebx frame)
                      0
                      (record m' { mem = mem; current_task = m.num_tasks }),
                  frame,
                )))
fork_returns_twice esp nested frame m call room ne apart away =
    let f = fork_lem esp m room ne apart away in
    (
      fork esp m,
      fork_call_lem esp nested m call,
      λ mem e. (
        double_return_lem frame nested (record (fork esp m) { mem = mem }) m.next_pid e
            (ap (λ (t : Task). t.eax_value)
              (ap (fork esp m).tasks (fork-current_task esp m) ∙ f.1)),
        double_return_lem frame nested
            (record (fork esp m) { mem = mem; current_task = m.num_tasks }) 0 e
            (ap (λ (t : Task). t.eax_value) f.0),
      ),
    )
