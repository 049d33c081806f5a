-- ===== src/Programs/World/Launched.antt =====
-- The strategies of source/src/kernel.cpp from kernelMain on, with all their tasks.
use implementing_os_and_syst.Base.{ℕ, ◌+◌, ◌≤◌, ◌<◌, ◌≡◌, sym, subst, ◌==◌, if◌then◌else◌, arith}
use implementing_os_and_syst.Machine.{Memory}
use implementing_os_and_syst.Multitasking.{Task, max_tasks, new_task}
use implementing_os_and_syst.Multitasking.Growth.{add_task_first}
use implementing_os_and_syst.Programs.{Program, Entry}
use implementing_os_and_syst.Programs.Protocol.{parent, Obeys}
use implementing_os_and_syst.Programs.Strategies.{
  Strategy, program, children, strategy-Obeys, a_first, a_waitpid, b_first, b_second, b_third,
  b_dynamic, b_plain, c_first,
}
use implementing_os_and_syst.Programs.World.{World, Reaches, stores_of, IsUndisturbed}
use implementing_os_and_syst.Programs.World.Bound.{Plays, IsOrderly}
use implementing_os_and_syst.System.{kernel_main}
use implementing_os_and_syst.System.Steps.{kernel_main-IsSound}
use implementing_os_and_syst.Programs.World.Runs.{Reaches-IsOrderly}

-- The world that kernelMain builds, where the first task runs `p`; `rest` stands in the other places.
abbrev pub launched :
    Program → ℕ → ℕ → ℕ → ℕ → Memory → (ℕ → Task) → (ℕ → ℕ) → (ℕ → ℕ) → (ℕ → Program) → World
launched p forktask gdt stack eax_value mem tasks video buffer rest = record {
  manager = (kernel_main forktask gdt stack eax_value mem tasks video buffer).manager;
  programs = λ i. if i == 0 then p else rest i;
}

pub one_task :
    (forktask gdt stack eax_value : ℕ) (mem : Memory) (tasks : ℕ → Task) (video buffer : ℕ → ℕ)
    → (kernel_main forktask gdt stack eax_value mem tasks video buffer).manager.num_tasks ≡ 1
unfolding kernel_main
one_task forktask gdt stack eax_value mem tasks video buffer =
    let initial = new_task stack eax_value gdt forktask mem in
    add_task_first initial.0 gdt initial.1 tasks

few_children : (s : Strategy) → children s + 1 < max_tasks
few_children a_first = omega arith
few_children a_waitpid = omega arith
few_children b_first = omega arith
few_children b_second = omega arith
few_children b_third = omega arith
few_children b_dynamic = omega arith
few_children b_plain = omega arith
few_children c_first = omega arith

launched-IsOrderly :
    (s : Strategy) (forktask gdt stack eax_value : ℕ) (mem : Memory) (tasks : ℕ → Task)
    (video buffer : ℕ → ℕ) (rest : ℕ → Program)
    → IsOrderly
        (children s)
        (λ i. 0)
        (launched (program s) forktask gdt stack eax_value mem tasks video buffer rest)
launched-IsOrderly s forktask gdt stack eax_value mem tasks video buffer rest =
    let one = one_task forktask gdt stack eax_value mem tasks video buffer in
    record {
      valid = (kernel_main-IsSound forktask gdt stack eax_value mem tasks video buffer).table;
      tasks_bound = omega (arith, one);
      plays = λ i l.
          let first : i ≡ 0 = omega (arith, one, l) in
          (
            parent (children s),
            (first, omega (arith, one)),
            tt,
            subst (λ j. Obeys (parent (children s)) (if j == 0 then program s else rest j))
                (sym first) (strategy-Obeys s),
          );
    }

-- From kernelMain on, with a strategy as the first task, in whatever order the scheduler runs the
-- tasks as long as each read of `pid` gives a task what that task stored there last: the table never
-- has more tasks than the strategy and its children, so that no fork finds it full; the first task is
-- the only one that may still fork, as often as there are children left, and behind a fork it is told
-- a pid and the child 0; what every task does from there on obeys its part of the protocol.
pub strategy_tasks :
    (entry : Entry → ℕ) (s : Strategy) (forktask gdt stack eax_value : ℕ) (mem : Memory)
    (tasks : ℕ → Task) (video buffer : ℕ → ℕ) (rest : ℕ → Program) (w : World)
    (r : Reaches entry
      (launched (program s) forktask gdt stack eax_value mem tasks video buffer rest)
      w)
    → IsUndisturbed r
    → (w.manager.num_tasks ≤ children s + 1)
      × (w.manager.num_tasks < max_tasks)
      × ((i : ℕ) → i < w.manager.num_tasks → Plays (children s) (stores_of r) w i)
strategy_tasks entry s forktask gdt stack eax_value mem tasks video buffer rest w r u =
    let o =
      Reaches-IsOrderly entry (children s) _ w (omega (arith, few_children s)) r u
        (launched-IsOrderly s forktask gdt stack eax_value mem tasks video buffer rest) in
    (o.tasks_bound, omega (arith, o.tasks_bound, few_children s), o.plays)
