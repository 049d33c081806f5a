-- ===== src/Multitasking/Scheduler/Values.antt =====
-- Schedule of source/src/multitasking.cpp keeps the tasks and the values of their forks.
use implementing_os_and_syst.Base.{ℕ, ◌≡◌, refl, ◌∙◌, inl, inr, Option, some, arith}
use implementing_os_and_syst.Multitasking.{TaskManager}
use implementing_os_and_syst.Multitasking.Values.{KeepsValues, Same, Same-refl, Same-trans}
use implementing_os_and_syst.Multitasking.Scheduler.{
  schedule, dispatch, before_pick, save_state, wake_waiter, apply_aging,
}
use implementing_os_and_syst.Multitasking.Scheduler.Step.{schedule-Choice, before_pick_frame}

-- The step has a result, with the same tasks and values.
abbrev pub EndsSame : TaskManager → Option (TaskManager × ℕ) → Type 0
EndsSame m r = (m' : TaskManager) × (esp' : ℕ) × (r ≡ some (m', esp')) × Same m m'

save_state_values : (frame : ℕ) (m : TaskManager) → KeepsValues m.tasks (save_state frame m).tasks
unfolding save_state
save_state_values frame m i = ground arith

wake_waiter_values : (m : TaskManager) → KeepsValues m.tasks (wake_waiter m).tasks
unfolding wake_waiter
wake_waiter_values m i = ground arith

apply_aging_values : (m : TaskManager) → KeepsValues m.tasks (apply_aging m).tasks
unfolding apply_aging
apply_aging_values m i = ground arith

before_pick-Same : (frame : ℕ) (m : TaskManager) → Same m (before_pick frame m)
before_pick-Same frame m = record {
  count = (before_pick_frame frame m).0;
  values = λ i.
      unfold before_pick in
      apply_aging_values (wake_waiter (save_state frame m)) i
      ∙ wake_waiter_values (save_state frame m) i
      ∙ save_state_values frame m i;
}

dispatch-Same : (next : ℕ) (m : TaskManager) → Same m (dispatch next m)
unfolding dispatch
dispatch-Same next m = record { count = refl; values = λ i. ground arith }

pub schedule-EndsSame : (frame : ℕ) (m : TaskManager) → EndsSame m (schedule frame m)
schedule-EndsSame frame m = elim (schedule-Choice frame m) [
  | inl (_, q) ↦ (m, frame, q, Same-refl m)
  | inr (next, _, q, _) ↦
      let b = before_pick frame m in
      (_, _, q, Same-trans m b (dispatch next b) (before_pick-Same frame m) (dispatch-Same next b))
]
