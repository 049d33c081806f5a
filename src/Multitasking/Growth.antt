-- ===== src/Multitasking/Growth.antt =====
-- No operation of source/src/multitasking.cpp takes a task out of the table.
use implementing_os_and_syst.Base.{ℕ, ◌≤◌, ◌≡◌, refl, arith}
use implementing_os_and_syst.Machine.{Memory}
use implementing_os_and_syst.Multitasking.{
  Task, TaskManager, State, add_task, task_manager, fork, fork_full, waitpid, block_on, exit,
  execve, set_current_state, set_current_priority, set_aging_pid,
}

pub fork_grows : (frame : ℕ) (m : TaskManager) → m.num_tasks ≤ (fork frame m).num_tasks
unfolding fork fork_full
fork_grows frame m = ground arith

pub waitpid_keeps : (pid : ℕ) (m : TaskManager) → (waitpid pid m).0.num_tasks ≡ m.num_tasks
unfolding waitpid block_on
waitpid_keeps pid m = ground arith

pub exit_keeps : (m : TaskManager) → (exit m).0.num_tasks ≡ m.num_tasks
unfolding exit
exit_keeps m = refl

pub execve_keeps : (entry : ℕ) (m : TaskManager) → (execve entry m).0.num_tasks ≡ m.num_tasks
unfolding execve
execve_keeps entry m = refl

pub set_current_state_keeps :
    (st : State) (m : TaskManager) → (set_current_state st m).num_tasks ≡ m.num_tasks
unfolding set_current_state
set_current_state_keeps st m = refl

pub set_current_priority_keeps :
    (p : ℕ) (m : TaskManager) → (set_current_priority p m).num_tasks ≡ m.num_tasks
unfolding set_current_priority
set_current_priority_keeps p m = refl

pub set_aging_pid_keeps :
    (pid : ℕ) (m : TaskManager) → (set_aging_pid pid m).num_tasks ≡ m.num_tasks
unfolding set_aging_pid
set_aging_pid_keeps pid m = refl

-- AddTask on a new manager gives a table of one task.
pub add_task_first :
    (t : Task) (gdt : ℕ) (mem : Memory) (tasks : ℕ → Task)
    → (add_task t (task_manager gdt mem tasks)).2.num_tasks ≡ 1
unfolding add_task task_manager
add_task_first t gdt mem tasks = refl
