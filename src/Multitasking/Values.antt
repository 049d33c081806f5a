-- ===== src/Multitasking/Values.antt =====
-- What the operations of source/src/multitasking.cpp do to the number of tasks and to the value that each task
-- gets from its last fork: only fork changes them.
use implementing_os_and_syst.Base.{
  ℕ, zero, suc, Bool-cases, ◌==◌, ◌&&◌, ◌+◌, ◌⊎◌, ◌<◌, ◌≡◌, ◌≢◌, refl, ◌∙◌, arith, inl, inr,
}
use implementing_os_and_syst.Multitasking.{
  fork_full, Task, TaskManager, State, fork, fork_tasks, with_child, waitpid, block_on, exit,
  execve, set_current_state, set_current_priority, set_aging_pid, set_state, wake_from, max_tasks,
  update, current, ready, terminated, is_blocked,
}

abbrev pub KeepsValues : (ℕ → Task) → (ℕ → Task) → Type 0
KeepsValues tasks tasks' = (i : ℕ) → (tasks' i).eax_value ≡ (tasks i).eax_value

-- `m'` has the tasks of `m`, with the values of their forks.
pub record Same (m m' : TaskManager) : Type 0 where
  pub count : m'.num_tasks ≡ m.num_tasks
  pub values : KeepsValues m.tasks m'.tasks

pub Same-refl : (m : TaskManager) → Same m m
Same-refl m = record { count = refl; values = λ i. refl }

pub Same-trans : (a b c : TaskManager) → Same a b → Same b c → Same a c
Same-trans a b c p q = record { count = q.count ∙ p.count; values = λ i. q.values i ∙ p.values i }

pub waitpid-Same : (pid : ℕ) (m : TaskManager) → Same m (waitpid pid m).0
unfolding waitpid block_on
waitpid-Same pid m = record { count = ground arith; values = λ i. ground arith }

update_values :
    (tasks : ℕ → Task) (i : ℕ) (t : Task)
    → t.eax_value ≡ (tasks i).eax_value
    → KeepsValues tasks (update tasks i t)
update_values tasks i t e j = ground arith

wake_from_values : (k i pid : ℕ) (tasks : ℕ → Task) → KeepsValues tasks (wake_from k i pid tasks)
unfolding wake_from
wake_from_values zero i pid tasks j = refl
wake_from_values (suc k) i pid tasks j =
    elim (Bool-cases (((tasks i).waiting_process == pid) && is_blocked (tasks i).state)) [
      | inl b ↦
          rw (b, wake_from)
            (wake_from_values k (i + 1) pid (set_state i ready tasks) j
              ∙ update_values tasks i _ refl j)
      | inr b ↦ rw (b, wake_from) (wake_from_values k (i + 1) pid tasks j)
    ]

pub exit-Same : (m : TaskManager) → Same m (exit m).0
unfolding exit
exit-Same m = record {
  count = refl;
  values = λ i.
      wake_from_values m.num_tasks 0 (current m).pid (set_state m.current_task terminated m.tasks) i
      ∙ update_values m.tasks m.current_task _ refl i;
}

pub execve-Same : (entry : ℕ) (m : TaskManager) → Same m (execve entry m).0
unfolding execve
execve-Same entry m = record { count = refl; values = λ i. ground arith }

pub set_current_state-Same : (st : State) (m : TaskManager) → Same m (set_current_state st m)
unfolding set_current_state
set_current_state-Same st m = record { count = refl; values = λ i. ground arith }

pub set_current_priority-Same : (p : ℕ) (m : TaskManager) → Same m (set_current_priority p m)
unfolding set_current_priority
set_current_priority-Same p m = record { count = refl; values = λ i. ground arith }

pub set_aging_pid-Same : (pid : ℕ) (m : TaskManager) → Same m (set_aging_pid pid m)
unfolding set_aging_pid
set_aging_pid-Same pid m = record { count = refl; values = λ i. ground arith }

-- fork with room in the table: one more task, which gets 0 where its parent gets the child's pid.
pub fork_values :
    (frame : ℕ) (m : TaskManager)
    → m.num_tasks < max_tasks
    → m.current_task ≢ m.num_tasks
    → let m' = fork frame m in
      (m'.num_tasks ≡ m.num_tasks + 1)
      × (m'.current_task ≡ m.current_task)
      × ((m'.tasks m.num_tasks).eax_value ≡ 0)
      × ((m'.tasks m.current_task).eax_value ≡ m.next_pid)
      × ((i : ℕ)
          → i ≢ m.num_tasks
          → i ≢ m.current_task
          → (m'.tasks i).eax_value ≡ (m.tasks i).eax_value)
unfolding fork fork_tasks with_child
fork_values frame m room ne =
    (ground arith, ground arith, ground arith, ground arith, λ i h k. ground arith)

-- fork makes one task or none.
pub fork_count :
    (frame : ℕ) (m : TaskManager)
    → ((fork frame m).num_tasks ≡ m.num_tasks + 1) ⊎ ((fork frame m).num_tasks ≡ m.num_tasks)
unfolding fork fork_full
fork_count frame m = ground arith
