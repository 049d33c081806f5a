-- ===== src/Multitasking/Scheduler.antt =====
-- TaskManager::Schedule of source/src/multitasking.cpp, the priority based round robin.
pub mod Pick
pub mod Choice
pub mod Step
pub mod Keeps
pub mod Growth
pub mod Values
pub mod Handoff
mod Tests
use implementing_os_and_syst.Base.{
  ℕ, zero, suc, ◌+◌, ◌*◌, ◌%◌, ◌^◌, Bool, not, ◌&&◌, ◌||◌, Option, none, some, [], ◌∷◌, ◌++◌, ltb,
  ◌==◌, if◌then◌else◌,
}
use implementing_os_and_syst.Machine.{word_mod, minus_one, signed_lt}
use implementing_os_and_syst.Multitasking.{
  Task, TaskManager, current, update, set_state, find_task_by_pid, ready, running, is_blocked,
  is_terminated, text,
}

-- The task is neither blocked nor terminated.
abbrev pub can_run : Task → Bool
can_run t = not (is_blocked t.state || is_terminated t.state)

-- The test of the loop: the task may run, and its priority is below the least one so far.
unfoldable pub better : (ℕ → Task) → ℕ → ℕ → Bool
better tasks highest idx = can_run (tasks idx) && signed_lt (tasks idx).priority highest

-- The loop over `i`, with fuel; `none` means that the fuel ran out. Where it finds a better task it
-- starts again behind that one: `i = -1` and `++i` leave 0.
unfoldable pub pick_loop : ℕ → ℕ → ℕ → ℕ → ℕ → ℕ → (ℕ → Task) → Option ℕ
pick_loop zero n i start highest next tasks = none
pick_loop (suc fuel) n i start highest next tasks =
    let idx = (start + i) % n in
    let again = pick_loop fuel n 0 ((idx + 1) % n) (tasks idx).priority idx tasks in
    let rest = pick_loop fuel n (i + 1) start highest next tasks in
    if ltb i n then (if better tasks highest idx then again else rest) else some next

-- The index of the task to run: `n` tasks, the current one at `c`.
unfoldable pub pick : ℕ → ℕ → (ℕ → Task) → Option ℕ
pick n c tasks = pick_loop (2 * n + 1) n 0 ((c + 1) % word_mod % n) 255 c tasks

-- `tasks[currentTask].cpustate = cpustate`, if the index is no negative `int`.
pub save_state : ℕ → TaskManager → TaskManager
save_state frame m = if signed_lt m.current_task 0 then m else record m {
  tasks = update m.tasks m.current_task (record (current m) { cpustate = frame });
}

-- The waitpid mechanism: a terminated task that is about to leave wakes its waiter.
pub wake_waiter : TaskManager → TaskManager
wake_waiter m =
    let waiting = find_task_by_pid (current m).waiting_process m in
    if is_terminated (current m).state
      && not ((current m).waiting_process == minus_one)
      && not (waiting == minus_one)
    then record m { tasks = set_state waiting ready m.tasks }
    else m

-- The aging step, at the twentieth interrupt.
pub apply_aging : TaskManager → TaskManager
apply_aging m =
    let index = find_task_by_pid m.aging_pid m in
    if (m.interrupt_count == 20)
      && not (is_terminated (m.tasks index).state)
      && not (index == minus_one)
    then record m {
      tasks = update m.tasks index (record (m.tasks index) { priority = 1 });
      out = m.out ++ text "----------------- AGING ------------- \n" ∷ [];
    }
    else m

-- The task at `next` becomes the current one.
unfoldable pub dispatch : ℕ → TaskManager → TaskManager
dispatch next m = record m {
  tasks = set_state next running m.tasks;
  current_task = next;
  interrupt_count = (m.interrupt_count + 1) % word_mod;
}

-- What Schedule does before it chooses.
unfoldable pub before_pick : ℕ → TaskManager → TaskManager
unfolding save_state wake_waiter apply_aging
before_pick frame m = apply_aging (wake_waiter (save_state frame m))

-- Schedule returns the address of the register frame to restore.
unfoldable pub schedule : ℕ → TaskManager → Option (TaskManager × ℕ)
schedule frame m =
    let m' = before_pick frame m in
    if m.num_tasks == 0
    then some (m, frame)
    else elim (pick m'.num_tasks m'.current_task m'.tasks) [
      | none ↦ none
      | some next ↦ some (dispatch next m', (m'.tasks next).cpustate)
    ]
