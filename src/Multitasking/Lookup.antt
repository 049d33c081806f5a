-- ===== src/Multitasking/Lookup.antt =====
-- findTaskByPID: what it returns on any table, and on one whose pids are its indices.
use implementing_os_and_syst.Base.{
  ℕ, zero, suc, ◌+◌, ◌≤◌, ◌<◌, ◌≡◌, ◌≢◌, refl, ◌⊎◌, inl, inr, Bool-cases, ◌==◌, leb, arith,
}
use implementing_os_and_syst.Machine.{minus_one}
use implementing_os_and_syst.Multitasking.{Task, TaskManager, find_from, find_task_by_pid}

-- No task with the pid stands in `[i, j)`.
abbrev pub Absent : (ℕ → Task) → ℕ → ℕ → ℕ → Type 0
Absent tasks pid i j = (x : ℕ) → i ≤ x → x < j → (tasks x).pid ≢ pid

-- The first index in `[i, j)` whose task has the pid, or -1.
pub data Found (tasks : ℕ → Task) (pid i j r : ℕ) : Type 0 where
  missing : r ≡ minus_one → Absent tasks pid i j → Found tasks pid i j r
  found : i ≤ r → r < j → (tasks r).pid ≡ pid → Absent tasks pid i r → Found tasks pid i j r

Absent-cons :
    (tasks : ℕ → Task) (pid i j : ℕ)
    → (tasks i).pid ≢ pid
    → Absent tasks pid (i + 1) j
    → Absent tasks pid i j
Absent-cons tasks pid i j h a x lo hi = elim (Bool-cases (i == x)) [
  | inl e ↦ λ q. h (ground arith)
  | inr e ↦ a x (ground arith) hi
]

Found-cons :
    (tasks : ℕ → Task) (pid i j : ℕ) {r : ℕ}
    → (tasks i).pid ≢ pid
    → Found tasks pid (i + 1) j r
    → Found tasks pid i j r
Found-cons tasks pid i j h (missing e a) = missing e (Absent-cons tasks pid i j h a)
Found-cons tasks pid i j {r} h (found lo hi e a) =
    found (omega arith) hi e (Absent-cons tasks pid i r h a)

find_from-Found :
    (k i j pid : ℕ) (tasks : ℕ → Task) → i + k ≡ j → Found tasks pid i j (find_from k i pid tasks)
unfolding find_from
find_from-Found zero i j pid tasks e = missing refl (λ x lo hi. absurd (omega arith))
find_from-Found (suc k) i j pid tasks e = elim (Bool-cases ((tasks i).pid == pid)) [
  | inl b ↦
      rw (b, find_from)
        (found (omega arith) (omega arith) (ground arith) (λ x lo hi. absurd (omega arith)))
  | inr b ↦
      rw (b, find_from)
        (Found-cons tasks pid i j (ground arith)
          (find_from-Found k (i + 1) j pid tasks (omega arith)))
]

-- findTaskByPID returns the first index below `numTasks` whose task has the pid, and -1 exactly
-- when no task of the table has it.
pub find_task_by_pid-Found :
    (pid : ℕ) (m : TaskManager) → Found m.tasks pid 0 m.num_tasks (find_task_by_pid pid m)
unfolding find_task_by_pid
find_task_by_pid-Found pid m = find_from-Found m.num_tasks 0 m.num_tasks pid m.tasks (omega arith)

-- The pid of each task is its index.
abbrev pub Numbered : ℕ → (ℕ → Task) → Type 0
Numbered n tasks = (i : ℕ) → i < n → (tasks i).pid ≡ i

Found-Numbered :
    (n pid r : ℕ) (tasks : ℕ → Task)
    → Numbered n tasks
    → Found tasks pid 0 n r
    → ((pid < n) × (r ≡ pid)) ⊎ ((n ≤ pid) × (r ≡ minus_one))
Found-Numbered n pid r tasks num (found lo hi e a) =
    inl (omega (arith, num r hi), omega (arith, num r hi))
Found-Numbered n pid r tasks num (missing e a) = elim (Bool-cases (leb n pid)) [
  | inl b ↦ inr (ground arith, e)
  | inr b ↦ absurd (a pid (omega arith) (ground arith) (num pid (ground arith)))
]

-- On a numbered table a pid in use is its own index.
pub find_task_by_pid-Numbered :
    (pid : ℕ) (m : TaskManager)
    → Numbered m.num_tasks m.tasks
    → ((pid < m.num_tasks) × (find_task_by_pid pid m ≡ pid))
      ⊎ ((m.num_tasks ≤ pid) × (find_task_by_pid pid m ≡ minus_one))
find_task_by_pid-Numbered pid m num =
    Found-Numbered m.num_tasks pid (find_task_by_pid pid m) m.tasks num
      (find_task_by_pid-Found pid m)
