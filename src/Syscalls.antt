-- ===== src/Syscalls.antt =====
-- source/src/syscalls.cpp and source/include/syscalls.h: the handler of interrupt 0x80.
pub mod Laws
pub mod User
pub mod Growth
pub mod Values
mod Tests
use implementing_os_and_syst.Base.{ℕ, Option, some, ◌==◌, if◌then◌else◌}
use implementing_os_and_syst.Machine.{Memory, write}
use implementing_os_and_syst.Machine.CpuState
use implementing_os_and_syst.Multitasking.{
  TaskManager, ready, blocked, Outcome, returns, reschedules, fork, waitpid, exit, execve,
  set_current_priority, set_current_state, set_aging_pid, get_pid, get_eax_val, get_priority,
}
use implementing_os_and_syst.Multitasking.Table.{print_process_table}
use implementing_os_and_syst.Multitasking.Scheduler.{schedule}

abbrev pub sys_fork : ℕ
sys_fork = 2

abbrev pub sys_getpid : ℕ
sys_getpid = 3

abbrev pub sys_print_table : ℕ
sys_print_table = 4

abbrev pub sys_double_return : ℕ
sys_double_return = 5

abbrev pub sys_waitpid : ℕ
sys_waitpid = 6

abbrev pub sys_exit : ℕ
sys_exit = 7

abbrev pub sys_execve : ℕ
sys_execve = 8

abbrev pub sys_set_priority : ℕ
sys_set_priority = 9

abbrev pub sys_intrpt_count : ℕ
sys_intrpt_count = 10

abbrev pub sys_add_aging : ℕ
sys_add_aging = 11

abbrev pub sys_get_priority : ℕ
sys_get_priority = 12

abbrev pub sys_set_state : ℕ
sys_set_state = 13

-- A store into the register frame of the call.
abbrev pub store : ℕ → ℕ → TaskManager → TaskManager
store a v m = record m { mem = write m.mem a v }

-- A call that ends in `int $0x20` runs Schedule over the frame that this interrupt pushed, at
-- `nested`; otherwise the frame of the call is restored.
pub finish : ℕ → ℕ → TaskManager → Outcome → Option (TaskManager × ℕ)
finish esp nested m (returns v) = some (m, esp)
finish esp nested m reschedules = schedule nested m

-- SYS_SET_STATE takes 0 for Ready and 2 for Blocked, and ignores the rest.
pub set_state_by : ℕ → TaskManager → TaskManager
set_state_by v m =
    if v == 0
    then set_current_state ready m
    else (if v == 2 then set_current_state blocked m else m)

-- The cases of the switch.
pub data Syscall : Type 0 where
  fork_call double_return_call getpid_call print_table_call waitpid_call exit_call : Syscall
  execve_call set_priority_call get_priority_call intrpt_count_call add_aging_call : Syscall
  set_state_call default_call : Syscall

-- `switch(cpu->eax)`: which case a number selects.
unfoldable pub select : ℕ → Syscall
select eax =
    if eax == sys_fork
    then fork_call
    else (if eax == sys_double_return
        then double_return_call
        else (if eax == sys_getpid
            then getpid_call
            else (if eax == sys_print_table
                then print_table_call
                else (if eax == sys_waitpid
                    then waitpid_call
                    else (if eax == sys_exit
                        then exit_call
                        else (if eax == sys_execve
                            then execve_call
                            else (if eax == sys_set_priority
                                then set_priority_call
                                else (if eax == sys_get_priority
                                    then get_priority_call
                                    else (if eax == sys_intrpt_count
                                        then intrpt_count_call
                                        else (if eax == sys_add_aging
                                            then add_aging_call
                                            else (if eax == sys_set_state
                                                then set_state_call
                                                else default_call)))))))))))

-- The body of each case, over the frame of the call and that of a nested interrupt.
unfoldable pub perform : Syscall → ℕ → ℕ → TaskManager → Option (TaskManager × ℕ)
perform fork_call esp nested m = some (fork esp m, esp)
perform double_return_call esp nested m = some (store (CpuState.ebx esp) (get_eax_val m) m, esp)
perform getpid_call esp nested m = some (store (CpuState.ecx esp) (get_pid m) m, esp)
perform print_table_call esp nested m = some (print_process_table m, esp)
perform waitpid_call esp nested m =
    finish esp nested (waitpid (m.mem (CpuState.ebx esp)) m).0
      (waitpid (m.mem (CpuState.ebx esp)) m).1
perform exit_call esp nested m = finish esp nested (exit m).0 (exit m).1
perform execve_call esp nested m = some (execve (m.mem (CpuState.ebx esp)) m)
perform set_priority_call esp nested m =
    some (set_current_priority (m.mem (CpuState.ebx esp)) m, esp)
perform get_priority_call esp nested m = some (store (CpuState.edx esp) (get_priority m) m, esp)
perform intrpt_count_call esp nested m = some (store (CpuState.edx esp) m.interrupt_count m, esp)
perform add_aging_call esp nested m = some (set_aging_pid (m.mem (CpuState.ebx esp)) m, esp)
perform set_state_call esp nested m = some (set_state_by (m.mem (CpuState.ebx esp)) m, esp)
perform default_call esp nested m = some (m, esp)

-- SyscallHandler::HandleInterrupt. The result is the state and the frame to restore; the `none` of
-- Schedule never occurs.
unfoldable pub handle_interrupt : ℕ → ℕ → TaskManager → Option (TaskManager × ℕ)
unfolding select perform
handle_interrupt esp nested m = perform (select (m.mem (CpuState.eax esp))) esp nested m
