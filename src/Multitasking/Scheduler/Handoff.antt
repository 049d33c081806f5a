-- ===== src/Multitasking/Scheduler/Handoff.antt =====
-- Schedule after a call that gave up the processor.
use native.Mathlib.Nat.{mod-lt}
use implementing_os_and_syst.Base.{
  ℕ, ◌+◌, ◌<◌, ◌≡◌, sym, ap, ◌∙◌, inl, inr, true, false, false≢true, some, arith,
}
use implementing_os_and_syst.Machine.{signed_lt}
use implementing_os_and_syst.Multitasking.{
  Task, TaskManager, ready, running, terminated, current, exit,
}
use implementing_os_and_syst.Multitasking.Lookup.{find_task_by_pid-Numbered}
use implementing_os_and_syst.Multitasking.Invariant.{IsValid}
use implementing_os_and_syst.Multitasking.Invariant.{exit-IsValid}
use implementing_os_and_syst.Multitasking.Wait.{exit_lem}
use implementing_os_and_syst.Multitasking.Scheduler.{
  can_run, better, schedule, before_pick, dispatch, save_state, wake_waiter, apply_aging,
}
use implementing_os_and_syst.Multitasking.Scheduler.Pick.{cover}
use implementing_os_and_syst.Multitasking.Scheduler.Choice.{Choice, stays, moves}
use implementing_os_and_syst.Multitasking.Scheduler.Step.{schedule-Choice, start}
use implementing_os_and_syst.Multitasking.Scheduler.Keeps.{save_state-IsValid}

-- Nothing but the frame address of the current task changes when it is saved.
save_state_lem :
    (frame : ℕ) (m : TaskManager) (j : ℕ)
    → ((save_state frame m).current_task ≡ m.current_task)
      × (((save_state frame m).tasks j).state ≡ (m.tasks j).state)
      × (((save_state frame m).tasks j).waiting_process ≡ (m.tasks j).waiting_process)
unfolding save_state
save_state_lem frame m j = ground arith

apply_aging-state : (m : TaskManager) (j : ℕ) → ((apply_aging m).tasks j).state ≡ (m.tasks j).state
unfolding apply_aging
apply_aging-state m j = ground arith

wake_waiter_ready :
    (m : TaskManager) (w : ℕ)
    → IsValid m
    → (current m).state ≡ terminated
    → (current m).waiting_process ≡ w
    → w < m.num_tasks
    → ((wake_waiter m).tasks w).state ≡ ready
unfolding wake_waiter
wake_waiter_ready m w v t e lt = ground (arith, v.bounded, find_task_by_pid-Numbered w m v.numbered)

-- When the current task has terminated and a task of the table is noted as its waiter, Schedule makes
-- that waiter Ready before it chooses.
pub waiter_is_woken :
    (frame : ℕ) (m : TaskManager) (w : ℕ)
    → IsValid m
    → (current m).state ≡ terminated
    → (current m).waiting_process ≡ w
    → w < m.num_tasks
    → ((before_pick frame m).tasks w).state ≡ ready
unfolding before_pick
waiter_is_woken frame m w v t e lt =
    apply_aging-state (wake_waiter (save_state frame m)) w
    ∙ wake_waiter_ready s w (save_state-IsValid frame m v)
        (ground (arith, save_state_lem frame m m.current_task))
        (ground (arith, save_state_lem frame m m.current_task)) (unfold save_state in ground arith)
  where
    s : TaskManager
    s = save_state frame m

-- A task whose child exits can run again: after exit and the steps of the Schedule that follows it,
-- the task that the exiting one has noted as its waiter is Ready when the choice is made.
pub exit_wakes_waiter :
    (frame : ℕ) (m : TaskManager) (w : ℕ)
    → IsValid m
    → m.current_task < m.num_tasks
    → (current m).waiting_process ≡ w
    → w < m.num_tasks
    → ((before_pick frame (exit m).0).tasks w).state ≡ ready
exit_wakes_waiter frame m w v c e lt =
    waiter_is_woken frame (exit m).0 w (exit-IsValid m v) (ap (λ (t : Task). t.state) x)
      (ap (λ (t : Task). t.waiting_process) x ∙ e) (unfold exit in lt)
  where
    x : current (exit m).0 ≡ record (current m) { state = terminated }
    x = unfold exit in (exit_lem m c).0

better-can_run : (tasks : ℕ → Task) (h j : ℕ) → better tasks h j ≡ true → can_run (tasks j) ≡ true
unfolding better
better-can_run tasks h j b = ground arith

no_choice :
    (tasks : ℕ → Task) (n k pos c r : ℕ)
    → 0 < n
    → ((j : ℕ) → j < n → can_run (tasks j) ≡ false)
    → Choice tasks n k pos 255 c r
    → r ≡ c
no_choice tasks n k pos c r p none_can (stays e _) = e
no_choice tasks n k pos c r p none_can (moves o _ e b _ _) =
    let f : can_run (tasks r) ≡ false = none_can r (omega (arith, mod-lt (pos + o) p)) in
    cc (better-can_run tasks 255 r b)

-- Where every task of the table is Blocked or Terminated when the choice is made, Schedule runs the
-- current task again and marks it Running, whatever its state: a terminated or blocked task resumes.
pub schedule_revives :
    (frame : ℕ) (m : TaskManager)
    → 0 < m.num_tasks
    → ((j : ℕ) → j < m.num_tasks → can_run ((before_pick frame m).tasks j) ≡ false)
    → (m' : TaskManager) × (esp : ℕ) × (schedule frame m ≡ some (m', esp))
      × (m'.current_task ≡ m.current_task)
      × ((m'.tasks m.current_task).state ≡ running)
unfolding dispatch
schedule_revives frame m p none_can = elim (schedule-Choice frame m) [
  | inl (z, q) ↦ absurd (omega arith)
  | inr (next, _, q, c) ↦
      let e =
        no_choice (before_pick frame m).tasks m.num_tasks m.num_tasks (start m) m.current_task next
          p none_can c in
      (
        dispatch next (before_pick frame m),
        ((before_pick frame m).tasks next).cpustate,
        q,
        e,
        ground arith,
      )
]

better-false :
    (tasks : ℕ → Task) (h j : ℕ)
    → better tasks h j ≡ false
    → can_run (tasks j) ≡ true
    → signed_lt (tasks j).priority h ≡ false
unfolding better
better-false tasks h j b r = ground arith

-- A task that the chosen one was the best of.
record Best (tasks : ℕ → Task) (n r : ℕ) : Type 0 where
  inside : r < n
  runs : can_run (tasks r) ≡ true
  least :
      (j : ℕ)
      → j < n
      → can_run (tasks j) ≡ true
      → signed_lt (tasks j).priority (tasks r).priority ≡ false

Choice-Best :
    (tasks : ℕ → Task) (n s c r i : ℕ)
    → s < n
    → i < n
    → can_run (tasks i) ≡ true
    → signed_lt (tasks i).priority 255 ≡ true
    → Choice tasks n n s 255 c r
    → Best tasks n r
Choice-Best tasks n s c r i sn lt run prio (stays e none_better) =
    let (d, h, q) = cover n tasks s i sn lt in
    let f : better tasks 255 i ≡ false = rw q (none_better d h) in
    absurd (false≢true (sym (better-false tasks 255 i f run) ∙ prio))
Choice-Best tasks n s c r i sn lt run prio (moves o h e b least front) = record {
  inside = omega (arith, mod-lt (s + o) {m = n} (omega arith));
  runs = better-can_run tasks 255 r b;
  least = λ j k can.
      let (d, h', q) = cover n tasks s j sn k in
      better-false tasks (tasks r).priority j (rw q (least d h')) can;
}

-- The chosen task may run: Schedule never dispatches a blocked or terminated task while some task
-- that may run has a priority below 255, and the one that it dispatches is of least priority.
pub schedule_runs :
    (frame : ℕ) (m : TaskManager) (i : ℕ)
    → i < m.num_tasks
    → can_run ((before_pick frame m).tasks i) ≡ true
    → signed_lt ((before_pick frame m).tasks i).priority 255 ≡ true
    → (next : ℕ) × (schedule frame m
        ≡ some (dispatch next (before_pick frame m), ((before_pick frame m).tasks next).cpustate))
      × (next < m.num_tasks)
      × (can_run ((before_pick frame m).tasks next) ≡ true)
      × ((j : ℕ)
          → j < m.num_tasks
          → can_run ((before_pick frame m).tasks j) ≡ true
          → signed_lt
              ((before_pick frame m).tasks j).priority
              ((before_pick frame m).tasks next).priority
            ≡ false)
schedule_runs frame m i lt run prio = elim (schedule-Choice frame m) [
  | inl (z, q) ↦ absurd (omega arith)
  | inr (next, p, q, c) ↦
      let best =
        Choice-Best (before_pick frame m).tasks m.num_tasks (start m) m.current_task next i
          (mod-lt _ p) lt run prio c in
      (next, q, best.inside, best.runs, best.least)
]
