-- ===== src/Multitasking/Wait.antt =====
-- waitpid and exit: who blocks, who is woken, and when.
use implementing_os_and_syst.Base.{
  ℕ, zero, suc, ◌+◌, ◌≤◌, ◌<◌, ◌≡◌, ◌≢◌, refl, ◌⊎◌, inl, inr, ◌&&◌, Bool-cases, ◌==◌, leb, ltb,
  if◌then◌else◌, arith,
}
use implementing_os_and_syst.Machine.{minus_one}
use implementing_os_and_syst.Multitasking.{
  Task, TaskManager, ready, blocked, terminated, is_blocked, is_terminated, current, set_state,
  block_on, waitpid, wake_from, exit, returns, reschedules,
}
use implementing_os_and_syst.Multitasking.Lookup.{find_task_by_pid-Numbered}
use implementing_os_and_syst.Multitasking.Invariant.{IsValid}

-- The table entry after the wake-up loop over `[i, i + k)`.
abbrev woken : ℕ → ℕ → ℕ → ℕ → Task → Task
woken k i pid j t =
    if leb i j && ltb j (i + k) && (t.waiting_process == pid) && is_blocked t.state
    then record t { state = ready }
    else t

wake_from_lem :
    (k i pid : ℕ) (tasks : ℕ → Task) (j : ℕ) → wake_from k i pid tasks j ≡ woken k i pid j (tasks j)
unfolding wake_from
wake_from_lem zero i pid tasks j = ground arith
wake_from_lem (suc k) i pid tasks j =
    elim (Bool-cases (((tasks i).waiting_process == pid) && is_blocked (tasks i).state)) [
      | inl b ↦ ground (arith, wake_from_lem k (i + 1) pid (set_state i ready tasks) j)
      | inr b ↦ ground (arith, wake_from_lem k (i + 1) pid tasks j)
    ]

-- exit marks the current task Terminated, keeps its waiter, and asks for a reschedule. Of the other
-- tasks of the table it changes only the state, and only to Ready: of those that are Blocked and
-- whose `waitingProcess` is the pid of the task that exits.
pub exit_lem :
    (m : TaskManager)
    → m.current_task < m.num_tasks
    → ((exit m).0.tasks m.current_task ≡ record (current m) { state = terminated })
      × ((exit m).1 ≡ reschedules)
      × ((j : ℕ)
          → j < m.num_tasks
          → j ≢ m.current_task
          → (exit m).0.tasks j ≡ (
              if ((m.tasks j).waiting_process == (current m).pid) && is_blocked (m.tasks j).state
              then record (m.tasks j) { state = ready }
              else m.tasks j))
unfolding exit
exit_lem m h = (ground (arith, woke m.current_task), refl, λ j lt ne. ground (arith, woke j))
  where
    woke :
        (j : ℕ)
        → (exit m).0.tasks j
          ≡ woken m.num_tasks 0 (current m).pid j (set_state m.current_task terminated m.tasks j)
    woke j =
        wake_from_lem m.num_tasks 0 (current m).pid (set_state m.current_task terminated m.tasks) j

-- waitpid on a valid table. A pid that no task has: -1, and nothing changes. A terminated task: 0,
-- and nothing changes. Otherwise the caller becomes Blocked, the task that it waits for notes the
-- caller's pid as its waiter, every other task is unchanged, and a reschedule follows.
pub waitpid_lem :
    (pid : ℕ) (m : TaskManager)
    → IsValid m
    → ((m.num_tasks ≤ pid) × (waitpid pid m ≡ (m, returns minus_one)))
      ⊎ (((pid < m.num_tasks)
            × ((m.tasks pid).state ≡ terminated)
            × (waitpid pid m ≡ (m, returns 0)))
          ⊎ ((pid < m.num_tasks)
              × ((m.tasks pid).state ≢ terminated)
              × ((waitpid pid m).1 ≡ reschedules)
              × (((waitpid pid m).0.tasks m.current_task).state ≡ blocked)
              × (((waitpid pid m).0.tasks pid).waiting_process ≡ (current m).pid)
              × ((j : ℕ) → j ≢ m.current_task → j ≢ pid → (waitpid pid m).0.tasks j ≡ m.tasks j)))
unfolding waitpid block_on
waitpid_lem pid m v = elim (find_task_by_pid-Numbered pid m v.numbered) [
  | inr (ge, e) ↦ inl (ge, ground arith)
  | inl (lt, e) ↦ elim (Bool-cases (is_terminated (m.tasks pid).state)) [
    | inl t ↦ inr (inl (lt, ground arith, ground (arith, v.bounded)))
    | inr t ↦ inr (
        inr (
          lt,
          ground arith,
          ground (arith, v.bounded),
          ground (arith, v.bounded),
          ground (arith, v.bounded),
          λ j p q. ground (arith, v.bounded),
        ))
  ]
]
