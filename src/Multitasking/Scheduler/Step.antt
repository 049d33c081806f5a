-- ===== src/Multitasking/Scheduler/Step.antt =====
-- One whole call of TaskManager::Schedule.
use implementing_os_and_syst.Base.{
  ℕ, ◌+◌, ◌%◌, ◌<◌, ◌≡◌, ◌⊎◌, inl, inr, some, arith, ◌==◌, Bool-cases,
}
use implementing_os_and_syst.Machine.{word_mod}
use implementing_os_and_syst.Multitasking.{TaskManager}
use implementing_os_and_syst.Multitasking.Scheduler.{before_pick, dispatch, schedule}
use implementing_os_and_syst.Multitasking.Scheduler.Pick.{first_min, pick-first_min}
use implementing_os_and_syst.Multitasking.Scheduler.Choice.{Choice, first_min-Choice}

-- The steps before the choice keep the number of tasks and the current one.
pub before_pick_frame :
    (frame : ℕ) (m : TaskManager)
    → ((before_pick frame m).num_tasks ≡ m.num_tasks)
      × ((before_pick frame m).current_task ≡ m.current_task)
      × ((before_pick frame m).interrupt_count ≡ m.interrupt_count)
      × ((before_pick frame m).next_pid ≡ m.next_pid)
unfolding before_pick
before_pick_frame frame m = ground arith

-- The position behind the current task, where the search begins.
abbrev pub start : TaskManager → ℕ
start m = (m.current_task + 1) % word_mod % m.num_tasks

-- Schedule with no task returns the frame that it was given; with some it ends within its fuel,
-- dispatches a task and returns that task's saved frame. The task is the first one of least
-- priority below 255 behind the current one in cyclic order among those neither blocked nor
-- terminated, and the current one where there is none such.
pub schedule-Choice :
    (frame : ℕ) (m : TaskManager)
    → ((m.num_tasks ≡ 0) × (schedule frame m ≡ some (m, frame)))
      ⊎ ((next : ℕ) × (0 < m.num_tasks)
          × (schedule frame m
              ≡ some (
                dispatch next (before_pick frame m),
                ((before_pick frame m).tasks next).cpustate,
              ))
          × Choice
              (before_pick frame m).tasks
              m.num_tasks
              m.num_tasks
              (start m)
              255
              m.current_task
              next)
unfolding schedule
schedule-Choice frame m = elim (Bool-cases (m.num_tasks == 0)) [
  | inl z ↦ inl (ground arith, ground arith)
  | inr s ↦
      let f = before_pick_frame frame m in
      let t = (before_pick frame m).tasks in
      let next = first_min m.num_tasks m.num_tasks (start m) 255 m.current_task t in
      inr (
        next,
        ground arith,
        ground (arith, f.0, f.1, pick-first_min m.num_tasks m.current_task t (ground arith)),
        first_min-Choice t m.num_tasks m.num_tasks (start m) 255 m.current_task,
      )
]
