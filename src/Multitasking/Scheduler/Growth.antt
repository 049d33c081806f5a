-- ===== src/Multitasking/Scheduler/Growth.antt =====
-- Schedule of source/src/multitasking.cpp takes no task out of the table.
use implementing_os_and_syst.Base.{ℕ, ◌≤◌, ◌≡◌, refl, Option, some, inl, inr, arith}
use implementing_os_and_syst.Multitasking.{TaskManager}
use implementing_os_and_syst.Multitasking.Scheduler.{schedule, dispatch, before_pick}
use implementing_os_and_syst.Multitasking.Scheduler.Step.{schedule-Choice, before_pick_frame}

-- The step has a result, with at least `n` tasks in the table.
abbrev pub EndsGrown : ℕ → Option (TaskManager × ℕ) → Type 0
EndsGrown n r = (m' : TaskManager) × (esp' : ℕ) × (r ≡ some (m', esp')) × (n ≤ m'.num_tasks)

dispatch_keeps : (next : ℕ) (m : TaskManager) → (dispatch next m).num_tasks ≡ m.num_tasks
unfolding dispatch
dispatch_keeps next m = refl

pub schedule-EndsGrown : (frame : ℕ) (m : TaskManager) → EndsGrown m.num_tasks (schedule frame m)
schedule-EndsGrown frame m = elim (schedule-Choice frame m) [
  | inl (_, q) ↦ (m, frame, q, omega arith)
  | inr (next, _, q, _) ↦
      let f = before_pick_frame frame m in
      (_, _, q, omega (arith, f.0, dispatch_keeps next (before_pick frame m)))
]
