-- ===== src/Programs/World/Offspring.antt =====
-- The tests of source/src/kernel.cpp with all their tasks: how many they can become.
use implementing_os_and_syst.Base.{
  ℕ, ◌+◌, ◌^◌, ◌≤◌, ◌<◌, ◌≡◌, refl, sym, subst, ap, ◌∙◌, inl, inr, true, false, some, ◌==◌,
  if◌then◌else◌, arith,
}
use implementing_os_and_syst.Machine.{Memory}
use implementing_os_and_syst.Multitasking.{TaskManager, Task, fork}
use implementing_os_and_syst.Multitasking.Invariant.{IsValid, keep, fork-IsValid}
use implementing_os_and_syst.Multitasking.Values.{Same, fork_count}
use implementing_os_and_syst.Multitasking.Scheduler.{schedule}
use implementing_os_and_syst.Multitasking.Scheduler.Keeps.{schedule-IsValid}
use implementing_os_and_syst.Multitasking.Scheduler.Values.{schedule-EndsSame}
use implementing_os_and_syst.Syscalls.{Syscall, double_return_call, execve_call, sys_fork}
use implementing_os_and_syst.Syscalls.User.{enter}
use implementing_os_and_syst.Programs.{Program, Action, Entry, call}
use implementing_os_and_syst.Programs.Obedience.{is_fork}
use implementing_os_and_syst.Programs.AtMost.{
  AtMost, Remains, Step-AtMost, Test, test_program, depth, test-AtMost,
}
use implementing_os_and_syst.Programs.World.{
  World, Moves, acted, timer, Reaches, start, next, Acts, called, executed, computed, do_call,
}
use implementing_os_and_syst.Programs.World.Calls.{
  do_call-Keeps, fork_call_state, do_call-sysexecve, chosen,
}
use implementing_os_and_syst.Programs.World.Runs.{
  Kind, fork_kind, return_kind, other_kind, kind, local_kind,
}
use implementing_os_and_syst.Programs.World.Family.{
  IsFamily, sum, sum_at_least, power_positive, moved, alone_step, child_step,
}
use implementing_os_and_syst.Programs.World.Launched.{launched, one_task}
use implementing_os_and_syst.System.Steps.{kernel_main-IsSound}

-- What an action does to the table: it is a fork, or it keeps the tasks.
data Effect (a : Action) (m m' : TaskManager) : Type 0 where
  kept : is_fork a ≡ false → m'.num_tasks ≡ m.num_tasks → IsValid m' → Effect a m m'
  forked : is_fork a ≡ true → (esp : ℕ) → m' ≡ fork esp (enter sys_fork esp m) → Effect a m m'

called-Effect :
    (esp nested x v : ℕ) (m m' : TaskManager) (c : Syscall)
    → Kind c
    → IsValid m
    → do_call esp nested c x m ≡ some (m', v)
    → Effect (call c x) m m'
called-Effect esp nested x v m m' _ fork_kind valid h =
    forked refl esp (fork_call_state esp nested x v m m' h)
called-Effect esp nested x v m m' _ return_kind valid h =
    let (s, w) = do_call-Keeps esp nested double_return_call x m tt valid m' v h in
    kept refl s.count w
called-Effect esp nested x v m m' _ (other_kind c o k) valid h =
    let (s, w) = do_call-Keeps esp nested c x m o valid m' v h in kept (k x).0 s.count w

effect :
    (entry : Entry → ℕ) (a : Action) (v : ℕ) (m m' : TaskManager)
    → IsValid m
    → Acts entry a v m m'
    → Effect a m m'
effect entry _ _ _ _ valid (called esp nested c x v m m' h) =
    called-Effect esp nested x v m m' c (kind c) valid h
effect entry _ _ _ _ valid (executed esp nested f v m m' h) =
    let (s, w) =
      do_call-Keeps esp nested execve_call (entry f) m tt valid m' v
        (do_call-sysexecve esp nested (entry f) m ∙ h) in
    kept refl s.count w
effect entry _ _ _ _ valid (computed a v mem m l) =
    kept (local_kind a l).0 refl (keep m (record m { mem = mem }) valid refl refl refl (λ i. refl))

acted-IsFamily :
    (bound : ℕ) (w : World) (a : Action) (q : Program) (m' : TaskManager) (f : IsFamily bound w)
    → w.manager.current_task < w.manager.num_tasks
    → Remains (f.left w.manager.current_task) a q
    → Effect a w.manager m'
    → IsFamily bound (moved w q m')
acted-IsFamily bound w a q m' f inside r (kept nf same valid) =
    alone_step bound r.left w q m' f inside valid same r.rest (ground (arith, r.fewer))
acted-IsFamily bound w a q m' f inside r (forked is esp e) =
    let m1 = enter sys_fork esp w.manager in
    let valid : IsValid m' =
      subst IsValid (sym e)
        (fork-IsValid esp m1 (keep w.manager m1 f.valid refl refl refl (λ i. refl))) in
    let less : r.left + 1 ≤ f.left w.manager.current_task = ground (arith, r.fewer) in
    elim (fork_count esp m1) [
      | inl more ↦
          child_step bound r.left w q m' f inside valid
            (ap (λ (t : TaskManager). t.num_tasks) e ∙ more) r.rest less
      | inr same ↦
          alone_step bound r.left w q m' f inside valid
            (ap (λ (t : TaskManager). t.num_tasks) e ∙ same) r.rest (omega (arith, less))
    ]

timer-IsFamily :
    (bound frame esp : ℕ) (w : World) (m' : TaskManager)
    → IsFamily bound w
    → schedule frame w.manager ≡ some (m', esp)
    → IsFamily bound (record w { manager = m' })
timer-IsFamily bound frame esp w m' f h =
    let (m1, _, e, s1) = schedule-EndsSame frame w.manager in
    let s : Same w.manager m' = subst (Same w.manager) (chosen (sym e ∙ h)).0 s1 in
    record {
      valid = schedule-IsValid frame w.manager m' esp f.valid h;
      left = f.left;
      each = λ i l. f.each i (omega (arith, s.count));
      total =
          let size = ap (λ k. sum k (λ i. 2 ^ f.left i)) s.count in omega (arith, size, f.total);
    }

Moves-IsFamily :
    (entry : Entry → ℕ) (bound : ℕ) (w w' : World)
    → Moves entry w w'
    → IsFamily bound w
    → IsFamily bound w'
Moves-IsFamily entry bound _ _ (acted w a v q m' inside s x) f =
    let c = w.manager.current_task in
    acted-IsFamily bound w a q m' f inside
      (Step-AtMost (f.left c) (w.programs c) q a v (f.each c inside) s)
      (effect entry a v w.manager m' f.valid x)
Moves-IsFamily entry bound _ _ (timer w frame esp m' h) f = timer-IsFamily bound frame esp w m' f h

Reaches-IsFamily :
    (entry : Entry → ℕ) (bound : ℕ) (w w' : World)
    → Reaches entry w w'
    → IsFamily bound w
    → IsFamily bound w'
Reaches-IsFamily entry bound w _ start f = f
Reaches-IsFamily entry bound w _ (next w' w'' r s) f =
    Moves-IsFamily entry bound w' w'' s (Reaches-IsFamily entry bound w w' r f)

-- A test of fork, waitpid or execve, as the first task, has never more tasks than its forks can make: two for
-- those with one fork, eight for those with three, in whatever order the scheduler runs them.
pub test_tasks :
    (entry : Entry → ℕ) (t : Test) (forktask gdt stack eax_value : ℕ) (mem : Memory)
    (tasks : ℕ → Task) (video buffer : ℕ → ℕ) (rest : ℕ → Program) (w : World)
    → Reaches entry
        (launched (test_program t) forktask gdt stack eax_value mem tasks video buffer rest)
        w
    → w.manager.num_tasks ≤ 2 ^ depth t
test_tasks entry t forktask gdt stack eax_value mem tasks video buffer rest w r =
    let one = one_task forktask gdt stack eax_value mem tasks video buffer in
    let f = Reaches-IsFamily entry (2 ^ depth t) _ w r (record {
      valid = (kernel_main-IsSound forktask gdt stack eax_value mem tasks video buffer).table;
      left = λ i. depth t;
      each = λ i l.
          let first : i ≡ 0 = omega (arith, one, l) in
          subst (λ j. AtMost (depth t) (if j == 0 then test_program t else rest j)) (sym first)
            (test-AtMost t);
      total = let size = ap (λ k. sum k (λ i. 2 ^ depth t)) one in omega (arith, size);
    }) in
    let enough =
      sum_at_least w.manager.num_tasks (λ i. 2 ^ f.left i) (λ i. power_positive (f.left i)) in
    omega (arith, enough, f.total)
