-- ===== src/Multitasking/Invariant.antt =====
-- The invariant of the process table, over the operations of the manager.
use implementing_os_and_syst.Base.{
  ℕ, zero, suc, ◌+◌, ◌%◌, ◌≤◌, ◌<◌, ◌≡◌, refl, sym, ◌∙◌, ◌⊎◌, inl, inr, Bool-cases, ◌==◌, leb, ◌&&◌,
  arith,
}
use implementing_os_and_syst.Machine.{Memory, minus_one, word_mod}
use implementing_os_and_syst.Multitasking.Lookup.{Numbered}
use implementing_os_and_syst.Multitasking.{
  Task, TaskManager, State, ready, blocked, is_blocked, max_tasks, update, set_state, current,
  task_manager, add_task, fork, fork_tasks, with_child, fork_full, waitpid, block_on, exit,
  wake_from, execve, set_current_priority, set_current_state, set_aging_pid, terminated,
  find_task_by_pid,
}

-- At most 256 tasks, in the table in the order of their pids, which are 0, 1, 2 and so on; the next
-- pid is the number of tasks; the current task is one of the table, or there is none yet (-1).
pub record IsValid (m : TaskManager) : Type 0 where
  pub bounded : m.num_tasks ≤ max_tasks
  pub next_is_count : m.next_pid ≡ m.num_tasks
  pub numbered : Numbered m.num_tasks m.tasks
  pub current_in : (m.current_task < m.num_tasks) ⊎ (m.current_task ≡ minus_one)

abbrev pub KeepsPids : (ℕ → Task) → (ℕ → Task) → Type 0
KeepsPids tasks tasks' = (i : ℕ) → (tasks' i).pid ≡ (tasks i).pid

pub update-KeepsPids :
    (tasks : ℕ → Task) (i : ℕ) (t : Task)
    → t.pid ≡ (tasks i).pid
    → KeepsPids tasks (update tasks i t)
update-KeepsPids tasks i t e j = ground arith

pub KeepsPids-Numbered :
    (n : ℕ) (tasks tasks' : ℕ → Task)
    → KeepsPids tasks tasks'
    → Numbered n tasks
    → Numbered n tasks'
KeepsPids-Numbered n tasks tasks' k num i h = k i ∙ num i h

-- An operation that changes the table only, and no pid in it.
pub keep :
    (m m' : TaskManager)
    → IsValid m
    → m'.num_tasks ≡ m.num_tasks
    → m'.next_pid ≡ m.next_pid
    → m'.current_task ≡ m.current_task
    → KeepsPids m.tasks m'.tasks
    → IsValid m'
keep m m' v n p c k = record {
  bounded = omega (arith, v.bounded);
  next_is_count = p ∙ v.next_is_count ∙ sym n;
  numbered = λ i h. k i ∙ v.numbered i (omega arith);
  current_in = elim v.current_in [ inl h ↦ inl (omega arith) | inr h ↦ inr (c ∙ h) ];
}

pub task_manager-IsValid :
    (gdt : ℕ) (mem : Memory) (tasks : ℕ → Task) → IsValid (task_manager gdt mem tasks)
unfolding task_manager
task_manager-IsValid gdt mem tasks = record {
  bounded = omega arith;
  next_is_count = refl;
  numbered = λ i h. elim h [ ];
  current_in = inr refl;
}

-- One more entry.
extend-Numbered :
    (n : ℕ) (tasks : ℕ → Task) (t : Task)
    → Numbered n tasks
    → t.pid ≡ n
    → Numbered (n + 1) (update tasks n t)
extend-Numbered n tasks t num e i h = elim (Bool-cases (n == i)) [
  | inl b ↦ ground arith
  | inr b ↦ ground (arith, num i)
]

grow :
    (m m' : TaskManager)
    → IsValid m
    → m.num_tasks < max_tasks
    → m'.num_tasks ≡ m.num_tasks + 1
    → m'.next_pid ≡ (m.next_pid + 1) % word_mod
    → m'.current_task ≡ m.current_task
    → Numbered (m.num_tasks + 1) m'.tasks
    → IsValid m'
grow m m' v room n p c num = record {
  bounded = omega arith;
  next_is_count = omega (arith, v.next_is_count);
  numbered = λ i h. num i (omega arith);
  current_in = elim v.current_in [ inl h ↦ inl (omega arith) | inr h ↦ inr (c ∙ h) ];
}

pub add_task-IsValid : (t : Task) (m : TaskManager) → IsValid m → IsValid (add_task t m).2
unfolding add_task
add_task-IsValid t m v = elim (Bool-cases (leb max_tasks m.num_tasks)) [
  | inl b ↦ rw (b, add_task) v
  | inr b ↦
      rw (b, add_task)
        (grow m _ v (ground arith) refl refl refl
          (extend-Numbered m.num_tasks m.tasks _ v.numbered v.next_is_count))
]

with_child-Numbered :
    (p c : ℕ) (tasks : ℕ → Task) → Numbered c tasks → Numbered (c + 1) (with_child p c c tasks)
unfolding with_child
with_child-Numbered p c tasks num = extend-Numbered c tasks _ num refl

fork_tasks-Numbered :
    (p c : ℕ) (tasks : ℕ → Task) → Numbered c tasks → Numbered (c + 1) (fork_tasks p c c tasks)
unfolding fork_tasks
fork_tasks-Numbered p c tasks num i h =
    update-KeepsPids (with_child p c c tasks) p _ refl i ∙ with_child-Numbered p c tasks num i h

pub fork-IsValid : (frame : ℕ) (m : TaskManager) → IsValid m → IsValid (fork frame m)
unfolding fork fork_full
fork-IsValid frame m v = elim (Bool-cases (leb max_tasks m.num_tasks)) [
  | inl b ↦
      rw (b, fork) (keep m _ v refl refl refl (update-KeepsPids m.tasks m.current_task _ refl))
  | inr b ↦
      rw (b, fork)
        (grow m _ v (ground arith) refl refl refl
          (rw v.next_is_count (fork_tasks-Numbered m.current_task m.num_tasks m.tasks v.numbered)))
]

block_on-KeepsPids : (index : ℕ) (m : TaskManager) → KeepsPids m.tasks (block_on index m).tasks
unfolding block_on
block_on-KeepsPids index m i =
    update-KeepsPids (set_state m.current_task blocked m.tasks) index _ refl i
    ∙ update-KeepsPids m.tasks m.current_task _ refl i

block_on-IsValid : (index : ℕ) (m : TaskManager) → IsValid m → IsValid (block_on index m)
block_on-IsValid index m v =
    unfold block_on in keep m _ v refl refl refl (block_on-KeepsPids index m)

pub waitpid-IsValid : (pid : ℕ) (m : TaskManager) → IsValid m → IsValid (waitpid pid m).0
unfolding waitpid
waitpid-IsValid pid m v = ground (arith, block_on-IsValid (find_task_by_pid pid m) m v)

wake_from-KeepsPids : (k i pid : ℕ) (tasks : ℕ → Task) → KeepsPids tasks (wake_from k i pid tasks)
unfolding wake_from
wake_from-KeepsPids zero i pid tasks j = refl
wake_from-KeepsPids (suc k) i pid tasks j =
    elim (Bool-cases (((tasks i).waiting_process == pid) && is_blocked (tasks i).state)) [
      | inl b ↦
          rw (b, wake_from)
            (wake_from-KeepsPids k (i + 1) pid (set_state i ready tasks) j
              ∙ update-KeepsPids tasks i _ refl j)
      | inr b ↦ rw (b, wake_from) (wake_from-KeepsPids k (i + 1) pid tasks j)
    ]

pub exit-IsValid : (m : TaskManager) → IsValid m → IsValid (exit m).0
exit-IsValid m v =
    unfold exit in
    keep m _ v refl refl refl (λ i.
      wake_from-KeepsPids m.num_tasks 0 (current m).pid
        (set_state m.current_task terminated m.tasks) i
      ∙ update-KeepsPids m.tasks m.current_task _ refl i)

pub execve-IsValid : (entry : ℕ) (m : TaskManager) → IsValid m → IsValid (execve entry m).0
execve-IsValid entry m v =
    unfold execve in keep m _ v refl refl refl (update-KeepsPids m.tasks m.current_task _ refl)

pub set_priority-IsValid :
    (p : ℕ) (m : TaskManager) → IsValid m → IsValid (set_current_priority p m)
set_priority-IsValid p m v =
    unfold set_current_priority in
    keep m _ v refl refl refl (update-KeepsPids m.tasks m.current_task _ refl)

pub set_state-IsValid : (s : State) (m : TaskManager) → IsValid m → IsValid (set_current_state s m)
set_state-IsValid s m v =
    unfold set_current_state in
    keep m _ v refl refl refl (update-KeepsPids m.tasks m.current_task _ refl)

pub set_aging-IsValid : (pid : ℕ) (m : TaskManager) → IsValid m → IsValid (set_aging_pid pid m)
set_aging-IsValid pid m v = unfold set_aging_pid in keep m _ v refl refl refl (λ i. refl)
