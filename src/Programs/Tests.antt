-- ===== src/Programs/Tests.antt =====
-- The strategy partb of source/src/kernel.cpp: a run of a child, and the first actions from kernelMain on.
use implementing_os_and_syst.Base.{
  ℕ, ◌+◌, ◌*◌, ◌<◌, ◌≤◌, ◌≡◌, refl, Option, some, none, [], ◌∷◌, codes, List, arith,
}
use implementing_os_and_syst.Multitasking.{
  Task, TaskManager, ready, new_task, task_manager, add_task, max_tasks, fork, set_current_priority,
  fork_tasks, get_eax_val,
}
use implementing_os_and_syst.Multitasking.Scheduler.{
  schedule, pick, pick_loop, before_pick, better, dispatch,
}
use implementing_os_and_syst.Syscalls.{
  fork_call, double_return_call, set_priority_call, sys_fork, sys_set_priority, select, perform,
  handle_interrupt,
}
use implementing_os_and_syst.Syscalls.User.{
  enter, enter_with, sysfork, sysfork_return, set_priority,
}
use implementing_os_and_syst.Programs.{
  Program, Action, Entry, spin, act, call, say, exec, collatz_entry, store_pid, load_pid,
}
use implementing_os_and_syst.Programs.Workers.{collatztask, body}
use implementing_os_and_syst.Programs.Launchers.{partb}
use implementing_os_and_syst.Programs.Steps.{acts, Runs, begin, then_acts}
use implementing_os_and_syst.Programs.Protocol.{Mode, parent, accepts, Undisturbed}
use implementing_os_and_syst.Programs.Strategies.{b_plain, forks, strategies_obey}
use implementing_os_and_syst.Programs.World.{
  World, Reaches, start, next, acted, timer, called, computed, do_call, next_programs, stores_of,
  IsUndisturbed,
}
use implementing_os_and_syst.System.{kernel_main}
use implementing_os_and_syst.Programs.World.Bound.{Plays}
use implementing_os_and_syst.Programs.World.Offspring.{test_tasks}
use implementing_os_and_syst.Programs.AtMost.{fork_3}
use implementing_os_and_syst.Programs.Workers.{linear_search_task}
use implementing_os_and_syst.Programs.{say_integer}
use implementing_os_and_syst.Syscalls.{getpid_call}
use implementing_os_and_syst.Programs.Forks.{forktask_3}
use implementing_os_and_syst.Base.{◌==◌, if◌then◌else◌}
use implementing_os_and_syst.Programs.World.Launched.{launched, strategy_tasks}

abbrev child_run : List (Action × ℕ)
child_run =
    (exec collatz_entry, 0)
    ∷ (call set_priority_call 5, 0)
    ∷ (load_pid, 0)
    ∷ (store_pid 0, 0)
    ∷ (call double_return_call 0, 0)
    ∷ (call fork_call 0, 0)
    ∷ (call set_priority_call 10, 0)
    ∷ (say (codes "Initializing system...\n"), 0)
    ∷ []

child_run-Runs : Runs partb child_run collatztask
unfolding partb body
child_run-Runs =
    then_acts _ _ _ _ _
      (then_acts _ _ _ _ _
        (then_acts _ _ _ _ _
          (then_acts _ _ _ _ _
            (then_acts _ _ _ _ _
              (then_acts _ _ _ _ _
                (then_acts _ _ _ _ _ (then_acts _ _ _ _ _ begin (acts _ _ _)) (acts _ _ _))
                (acts _ _ _))
              (acts _ _ _))
            (acts _ _ _))
          (acts _ 0 _))
        (acts _ _ _))
      (acts _ _ _)

child_run-Undisturbed : Undisturbed child_run
child_run-Undisturbed = (tt, (tt, (refl, (tt, (tt, (tt, (tt, (tt, tt))))))))

strategies_obey_example :
    ((m : Mode) × (accepts (parent 3) child_run ≡ some m)) × (forks child_run ≤ 3)
strategies_obey_example =
    strategies_obey b_plain child_run collatztask child_run-Runs child_run-Undisturbed

abbrev blank : ℕ → Task
blank i = record {
  stack = 0x10_0000 + 0x1000 * i;
  pid = 0;
  ppid = 0;
  priority = 0;
  state = ready;
  waiting_process = 0;
  cpustate = 0;
  eax_value = 0;
}

abbrev booted : World
booted =
    launched partb 0x40_0000 0x8000 0x9_0000 0 (λ a. 0) blank (λ i. 0x0720) (λ i. 0) (λ i. spin)

abbrev running : World
running = record booted { manager = dispatch 0 (before_pick 0x1000 booted.manager) }

first_run :
    schedule 0x1000 booted.manager
    ≡ some (running.manager, ((before_pick 0x1000 booted.manager).tasks 0).cpustate)
unfolding schedule pick pick_loop before_pick better dispatch kernel_main new_task task_manager
    add_task
first_run = refl

inside : running.manager.current_task < running.manager.num_tasks
unfolding before_pick dispatch kernel_main new_task task_manager add_task
inside = omega arith

abbrev after : Program → Program
after (act a k) = k 0
after p = p

-- The first task prints, sets its priority and forks; each world is the one before it, one action later.
abbrev moved : World → Program → TaskManager → World
moved w q m' = record { manager = m'; programs = next_programs w.manager m' q w.programs }

abbrev greeted : World
greeted = moved running (after partb) (record running.manager { mem = running.manager.mem })

abbrev lowered : World
lowered =
    moved greeted (after (after partb))
      (set_current_priority 10 (enter_with sys_set_priority 10 0x900 greeted.manager))

abbrev parted : World
parted =
    moved lowered (after (after (after partb))) (fork 0x900 (enter sys_fork 0x900 lowered.manager))

abbrev entry : Entry → ℕ
entry e = 0x41_0000

parted-Reaches : Reaches entry booted parted
unfolding partb do_call select perform sysfork set_priority handle_interrupt before_pick dispatch
    kernel_main new_task task_manager add_task set_current_priority
parted-Reaches =
    next lowered parted
      (next greeted lowered
        (next running greeted
          (next booted running start (timer booted 0x1000 _ running.manager first_run))
          (acted running _ _ _ _ inside (acts _ _ _) (computed _ 0 _ _ refl)))
        (acted greeted _ _ _ _ inside (acts _ 0x900 _) (called 0x900 0x800 _ _ _ _ _ refl)))
      (acted lowered _ _ _ _ inside (acts _ 0x900 _) (called 0x900 0x800 _ _ _ _ _ refl))

-- It asks for the pid, stores it and tests it.
abbrev told : ℕ → Program → Program
told v (act a k) = k v
told v p = p

abbrev state_of : Option (TaskManager × ℕ) → TaskManager
state_of none = parted.manager
state_of (some r) = r.0

abbrev answer_of : Option (TaskManager × ℕ) → ℕ
answer_of none = 0
answer_of (some r) = r.1

abbrev question : Option (TaskManager × ℕ)
question = do_call 0x900 0x800 double_return_call 0 parted.manager

abbrev asked : World
asked = moved parted (told 1 (after (after (after partb)))) (state_of question)

abbrev kept : World
kept =
    moved asked (after (told 1 (after (after (after partb)))))
      (record asked.manager { mem = asked.manager.mem })

abbrev tested : World
tested =
    moved kept (told 1 (after (told 1 (after (after (after partb))))))
      (record kept.manager { mem = kept.manager.mem })

inside_parted : parted.manager.current_task < parted.manager.num_tasks
unfolding before_pick dispatch kernel_main new_task task_manager add_task fork set_current_priority
inside_parted = omega arith

tested-Reaches : Reaches entry booted tested
unfolding partb do_call select perform sysfork set_priority handle_interrupt before_pick dispatch
    kernel_main new_task task_manager add_task set_current_priority sysfork_return fork fork_tasks
    get_eax_val
tested-Reaches =
    next kept tested
      (next asked kept
        (next parted asked parted-Reaches
          (acted parted _ 1 _ _ inside_parted (acts _ 1 _) (called 0x900 0x800 _ _ _ _ _ refl)))
        (acted asked _ _ _ _ inside_parted (acts _ 0 _) (computed _ 0 _ _ refl)))
      (acted kept _ 1 _ _ inside_parted (acts _ 1 _) (computed _ 1 _ _ refl))

tested-IsUndisturbed : IsUndisturbed tested-Reaches
unfolding tested-Reaches parted-Reaches before_pick dispatch kernel_main new_task task_manager
    add_task fork set_current_priority
tested-IsUndisturbed = (((((((tt, tt), tt), tt), tt), tt), tt), refl)

strategy_tasks_example :
    (tested.manager.num_tasks ≤ 4)
    × (tested.manager.num_tasks < max_tasks)
    × ((i : ℕ) → i < tested.manager.num_tasks → Plays 3 (stores_of tested-Reaches) tested i)
strategy_tasks_example =
    strategy_tasks entry b_plain 0x40_0000 0x8000 0x9_0000 0 (λ a. 0) blank (λ i. 0x0720) (λ i. 0)
      (λ i. spin) tested tested-Reaches tested-IsUndisturbed

-- forktask_3 in the same state: it prints and forks.
abbrev testing : World
testing = record running { programs = λ i. if i == 0 then forktask_3 else spin }

abbrev announced : World
announced = moved testing (after forktask_3) (record running.manager { mem = running.manager.mem })

abbrev doubled : World
doubled =
    moved announced (after (after forktask_3)) (fork 0x900 (enter sys_fork 0x900 announced.manager))

doubled-Reaches : Reaches entry (record testing { manager = booted.manager }) doubled
unfolding forktask_3 do_call select perform sysfork handle_interrupt before_pick dispatch
    kernel_main new_task task_manager add_task
doubled-Reaches =
    next announced doubled
      (next testing announced (next _ testing start (timer _ 0x1000 _ running.manager first_run))
        (acted testing _ _ _ _ inside (acts _ _ _) (computed _ 0 _ _ refl)))
      (acted announced _ _ _ _ inside (acts _ 0x900 _) (called 0x900 0x800 _ _ _ _ _ refl))

test_tasks_example : doubled.manager.num_tasks ≤ 2
test_tasks_example =
    test_tasks entry fork_3 0x40_0000 0x8000 0x9_0000 0 (λ a. 0) blank (λ i. 0x0720) (λ i. 0)
      (λ i. spin) doubled doubled-Reaches

-- The first actions of linear_search_task as the task of pid 3 and priority 5.
abbrev searching : List (Action × ℕ)
searching =
    (call getpid_call 0, 3)
    ∷ (say (codes " PID = "), 0)
    ∷ (say (codes "/10 times"), 0)
    ∷ (say_integer 1, 0)
    ∷ (say (codes "linear_search_task(arr) running for "), 0)
    ∷ []

abbrev searched : Program
searched = told 3 (after (after (after (after linear_search_task))))
