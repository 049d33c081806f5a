-- ===== src/Multitasking/Scheduler/Keeps.antt =====
-- TaskManager::Schedule and the invariant of the process table.
use native.Mathlib.Nat.{mod-lt}
use implementing_os_and_syst.Base.{
  ℕ, ◌+◌, ◌<◌, ◌≡◌, refl, sym, subst, ◌∙◌, ◌⊎◌, inl, inr, Option, some, arith,
}
use implementing_os_and_syst.Multitasking.{TaskManager}
use implementing_os_and_syst.Multitasking.{Task}
use implementing_os_and_syst.Multitasking.Invariant.{
  IsValid, KeepsPids, update-KeepsPids, KeepsPids-Numbered, keep,
}
use implementing_os_and_syst.Multitasking.Scheduler.{
  schedule, before_pick, dispatch, save_state, wake_waiter, apply_aging,
}
use implementing_os_and_syst.Multitasking.Scheduler.Choice.{Choice, stays, moves}
use implementing_os_and_syst.Multitasking.Scheduler.Step.{schedule-Choice, before_pick_frame}

-- The steps of Schedule before the choice.
pub save_state-KeepsPids :
    (frame : ℕ) (m : TaskManager) → KeepsPids m.tasks (save_state frame m).tasks
unfolding save_state
save_state-KeepsPids frame m i = ground arith

wake_waiter-KeepsPids : (m : TaskManager) → KeepsPids m.tasks (wake_waiter m).tasks
unfolding wake_waiter
wake_waiter-KeepsPids m i = ground arith

apply_aging-KeepsPids : (m : TaskManager) → KeepsPids m.tasks (apply_aging m).tasks
unfolding apply_aging
apply_aging-KeepsPids m i = ground arith

before_pick-KeepsPids :
    (frame : ℕ) (m : TaskManager) → KeepsPids m.tasks (before_pick frame m).tasks
before_pick-KeepsPids frame m i =
    unfold before_pick in
    apply_aging-KeepsPids (wake_waiter (save_state frame m)) i
    ∙ wake_waiter-KeepsPids (save_state frame m) i
    ∙ save_state-KeepsPids frame m i

before_pick-IsValid : (frame : ℕ) (m : TaskManager) → IsValid m → IsValid (before_pick frame m)
before_pick-IsValid frame m v =
    let f = before_pick_frame frame m in
    keep m (before_pick frame m) v f.0 f.3 f.1 (before_pick-KeepsPids frame m)

-- What is chosen is a task of the table, or the current one.
Choice-in :
    (tasks : ℕ → Task) (n k pos h c r : ℕ) → 0 < n → Choice tasks n k pos h c r → (r < n) ⊎ (r ≡ c)
Choice-in tasks n k pos h c r p (stays e _) = inr e
Choice-in tasks n k pos h c r p (moves o _ e _ _ _) = inl (omega (arith, mod-lt (pos + o) p))

dispatch-IsValid :
    (next : ℕ) (m : TaskManager)
    → IsValid m
    → (next < m.num_tasks) ⊎ (next ≡ m.current_task)
    → IsValid (dispatch next m)
unfolding dispatch
dispatch-IsValid next m v h = record {
  bounded = v.bounded;
  next_is_count = v.next_is_count;
  numbered =
      KeepsPids-Numbered m.num_tasks m.tasks (dispatch next m).tasks
        (update-KeepsPids m.tasks next _ refl) v.numbered;
  current_in = elim h [ inl q ↦ inl q | inr q ↦ rw q v.current_in ];
}

chosen :
    {a b : TaskManager} {p q : ℕ}
    → ◌≡◌ {A = Option (TaskManager × ℕ)} (some (a, p)) (some (b, q))
    → a ≡ b
chosen h = cc

-- A call of Schedule keeps the invariant of the process table.
pub schedule-IsValid :
    (frame : ℕ) (m m' : TaskManager) (esp : ℕ)
    → IsValid m
    → schedule frame m ≡ some (m', esp)
    → IsValid m'
schedule-IsValid frame m m' esp v e = elim (schedule-Choice frame m) [
  | inl (z, q) ↦ subst IsValid (chosen (sym q ∙ e)) v
  | inr (next, p, q, c) ↦
      let f = before_pick_frame frame m in
      subst IsValid (chosen (sym q ∙ e)) (
        dispatch-IsValid next (before_pick frame m) (before_pick-IsValid frame m v)
          (elim (Choice-in _ _ _ _ _ _ _ p c) [
            | inl h ↦ inl (omega (arith, f.0))
            | inr h ↦ inr (h ∙ sym f.1)
          ]))
]

pub save_state-IsValid : (frame : ℕ) (m : TaskManager) → IsValid m → IsValid (save_state frame m)
unfolding save_state
save_state-IsValid frame m v =
    keep m (save_state frame m) v (ground arith) (ground arith) (ground arith)
      (save_state-KeepsPids frame m)
