-- ===== src/Multitasking/Scheduler/Tests.antt =====
-- Schedule of source/src/multitasking.cpp on small process tables.
use implementing_os_and_syst.Base.{
  ℕ, ◌+◌, ◌-◌, ◌*◌, ◌≡◌, ◌<◌, refl, inl, true, false, some, [], arith, ◌⊎◌,
}
use implementing_os_and_syst.Machine.{minus_one, signed_lt}
use implementing_os_and_syst.Multitasking.{State, Task, TaskManager, exit, ready, running, blocked}
use implementing_os_and_syst.Multitasking.Invariant.{IsValid}
use implementing_os_and_syst.Multitasking.Scheduler.{
  can_run, better, pick_loop, pick, before_pick, dispatch, schedule,
}
use implementing_os_and_syst.Multitasking.Scheduler.Pick.{first_min, pick-first_min}
use implementing_os_and_syst.Multitasking.Scheduler.Choice.{Choice}
use implementing_os_and_syst.Multitasking.Scheduler.Step.{schedule-Choice, start}
use implementing_os_and_syst.Multitasking.Scheduler.Handoff.{
  exit_wakes_waiter, schedule_revives, schedule_runs,
}

-- The entry `i`, of priority `10 - i`.
abbrev task : State → ℕ → Task
task s i = record {
  cpustate = 0x10000 + 4096 * i;
  stack = 0x10000 + 4096 * i;
  eax_value = 0;
  pid = i;
  ppid = 0;
  priority = 10 - i;
  state = s;
  waiting_process = 0;
}

abbrev table : State → TaskManager
table s = record {
  mem = λ a. 0;
  tasks = task s;
  gdt = 0x1000;
  num_tasks = 3;
  current_task = 1;
  interrupt_count = 0;
  aging_pid = minus_one;
  next_pid = 3;
  out = [];
}

table-IsValid : (s : State) → IsValid (table s)
table-IsValid s = record {
  bounded = omega arith;
  next_is_count = refl;
  numbered = λ i l. refl;
  current_in = inl (omega arith);
}

pick_last : pick 3 1 (task ready) ≡ some 2
unfolding pick pick_loop better
pick_last = refl

pick-first_min_example : pick 3 1 (task ready) ≡ some (first_min 3 3 2 255 1 (task ready))
pick-first_min_example = pick-first_min 3 1 (task ready) (omega arith)

schedule-Choice_example :
    (((table ready).num_tasks ≡ 0) × (schedule 0x800 (table ready) ≡ some (table ready, 0x800)))
    ⊎ ((next : ℕ) × (0 < 3)
        × (schedule 0x800 (table ready)
            ≡ some (
              dispatch next (before_pick 0x800 (table ready)),
              ((before_pick 0x800 (table ready)).tasks next).cpustate,
            ))
        × Choice (before_pick 0x800 (table ready)).tasks 3 3 (start (table ready)) 255 1 next)
schedule-Choice_example = schedule-Choice 0x800 (table ready)

schedule_last :
    schedule 0x800 (table ready) ≡ some (dispatch 2 (before_pick 0x800 (table ready)), 0x12000)
unfolding schedule pick pick_loop before_pick better
schedule_last = refl

last_can_run : can_run ((before_pick 0x800 (table ready)).tasks 2) ≡ true
unfolding before_pick
last_can_run = refl

last_is_low : signed_lt ((before_pick 0x800 (table ready)).tasks 2).priority 255 ≡ true
unfolding before_pick
last_is_low = refl

schedule_runs_example :
    (next : ℕ) × (schedule 0x800 (table ready)
      ≡ some (
        dispatch next (before_pick 0x800 (table ready)),
        ((before_pick 0x800 (table ready)).tasks next).cpustate,
      ))
    × (next < 3)
    × (can_run ((before_pick 0x800 (table ready)).tasks next) ≡ true)
    × ((j : ℕ)
        → j < 3
        → can_run ((before_pick 0x800 (table ready)).tasks j) ≡ true
        → signed_lt
            ((before_pick 0x800 (table ready)).tasks j).priority
            ((before_pick 0x800 (table ready)).tasks next).priority
          ≡ false)
schedule_runs_example = schedule_runs 0x800 (table ready) 2 (omega arith) last_can_run last_is_low

exit_wakes_waiter_example : ((before_pick 0x800 (exit (table running)).0).tasks 0).state ≡ ready
exit_wakes_waiter_example =
    exit_wakes_waiter 0x800 (table running) 0 (table-IsValid running) (omega arith) refl
      (omega arith)

none_can_run : (j : ℕ) → j < 3 → can_run ((before_pick 0x800 (table blocked)).tasks j) ≡ false
unfolding before_pick
none_can_run j h = ground arith

schedule_revives_example :
    (m' : TaskManager) × (esp : ℕ) × (schedule 0x800 (table blocked) ≡ some (m', esp))
    × (m'.current_task ≡ 1)
    × ((m'.tasks 1).state ≡ running)
schedule_revives_example = schedule_revives 0x800 (table blocked) (omega arith) none_can_run
