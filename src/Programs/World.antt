-- ===== src/Programs/World.antt =====
-- The bodies of source/src/kernel.cpp over the task manager: all tasks together, with timer interrupts between any
-- two of their actions. Each task has its program and the locals in it; `pid` is read as any value.
pub mod Calls
pub mod Bound
pub mod Forking
pub mod Runs
pub mod Launched
pub mod Family
pub mod Offspring
use implementing_os_and_syst.Base.{
  ℕ, zero, suc, ◌+◌, ◌<◌, ◌≡◌, Bool, true, false, Option, some, none, ltb, ◌==◌, ◌&&◌,
  if◌then◌else◌,
}
use implementing_os_and_syst.Machine.{Memory}
use implementing_os_and_syst.Multitasking.{TaskManager}
use implementing_os_and_syst.Multitasking.Scheduler.{schedule}
use implementing_os_and_syst.Syscalls.{
  Syscall, fork_call, double_return_call, getpid_call, print_table_call, waitpid_call, exit_call,
  execve_call, set_priority_call, get_priority_call, intrpt_count_call, add_aging_call,
  set_state_call, default_call,
}
use implementing_os_and_syst.Syscalls.User
use implementing_os_and_syst.Programs.{Program, Action, call, exec, Entry}
use implementing_os_and_syst.Programs.Steps.{Step}
use implementing_os_and_syst.Programs.Protocol.{storing, OwnPid}

-- The wrapper of a system call, over the frame of the call and that of an interrupt in its handler.
unfoldable pub do_call : ℕ → ℕ → Syscall → ℕ → TaskManager → Option (TaskManager × ℕ)
do_call esp nested fork_call x m = User.sysfork esp nested m
do_call esp nested double_return_call x m = User.sysfork_return esp nested m
do_call esp nested getpid_call x m = User.getpid esp nested m
do_call esp nested print_table_call x m = User.sys_process_table esp nested m
do_call esp nested waitpid_call x m = User.user_waitpid esp nested x m
do_call esp nested exit_call x m = User.sysexit esp nested m
do_call esp nested execve_call x m = User.sysexecve esp nested x m
do_call esp nested set_priority_call x m = User.set_priority esp nested x m
do_call esp nested get_priority_call x m = User.user_get_priority esp nested m
do_call esp nested intrpt_count_call x m = User.sys_interrupt_count esp nested m
do_call esp nested add_aging_call x m = User.set_aging esp nested x m
do_call esp nested set_state_call x m = User.set_task_state esp nested x m
do_call esp nested default_call x m = some (m, 0)

abbrev pub is_local : Action → Bool
is_local (call c x) = false
is_local (exec e) = false
is_local _ = true

-- An action of the current task, with its answer: a system call, or what changes the memory only. `entry` gives the
-- address of each body.
pub data Acts (entry : Entry → ℕ) : Action → ℕ → TaskManager → TaskManager → Type 0 where
  called :
      (esp nested : ℕ) (c : Syscall) (x v : ℕ) (m m' : TaskManager)
      → do_call esp nested c x m ≡ some (m', v)
      → Acts entry (call c x) v m m'
  executed :
      (esp nested : ℕ) (e : Entry) (v : ℕ) (m m' : TaskManager)
      → User.sysexecve esp nested (entry e) m ≡ some (m', v)
      → Acts entry (exec e) v m m'
  computed :
      (a : Action) (v : ℕ) (mem : Memory) (m : TaskManager)
      → is_local a ≡ true
      → Acts entry a v m (record m { mem = mem })

-- The manager, and where each task of the table stands in its body.
pub record World : Type 0 where
  pub manager : TaskManager
  pub programs : ℕ → Program

-- The current task goes on with `q`; so does the child that a fork has made.
abbrev pub next_programs : TaskManager → TaskManager → Program → (ℕ → Program) → ℕ → Program
next_programs m m' q programs i =
    if i == m.current_task
    then q
    else if (i == m.num_tasks) && ltb m.num_tasks m'.num_tasks
    then q
    else programs i

-- An action of the current task, or the scheduler on a timer interrupt.
pub data Moves (entry : Entry → ℕ) : World → World → Type 0 where
  acted :
      (w : World) (a : Action) (v : ℕ) (q : Program) (m' : TaskManager)
      → w.manager.current_task < w.manager.num_tasks
      → Step (w.programs w.manager.current_task) a v q
      → Acts entry a v w.manager m'
      → Moves entry w (record { manager = m'; programs = next_programs w.manager m' q w.programs })
  timer :
      (w : World) (frame esp : ℕ) (m' : TaskManager)
      → schedule frame w.manager ≡ some (m', esp)
      → Moves entry w (record w { manager = m' })

pub data Reaches (entry : Entry → ℕ) (w : World) : World → Type 0 where
  start : Reaches entry w w
  next : (w' w'' : World) → Reaches entry w w' → Moves entry w' w'' → Reaches entry w w''

-- What each task has stored last in `pid`, by its place in the table: `stores` before an action of the task `c`.
abbrev pub stored_at : ℕ → Action → (ℕ → ℕ) → ℕ → ℕ
stored_at c a stores i = if i == c then storing a (stores i) else stores i

abbrev pub stored_by : {entry : Entry → ℕ} {w w' : World} → Moves entry w w' → (ℕ → ℕ) → ℕ → ℕ
stored_by (acted w a v q m' inside s x) stores = stored_at w.manager.current_task a stores
stored_by (timer w frame esp m' h) stores = stores

abbrev pub stores_of : {entry : Entry → ℕ} {w w' : World} → Reaches entry w w' → ℕ → ℕ
stores_of start i = 0
stores_of (next w' w'' r s) i = stored_by s (stores_of r) i

-- A read of `pid` gives the current task what it has stored there last.
abbrev pub ReadsOwn : {entry : Entry → ℕ} {w w' : World} → Moves entry w w' → (ℕ → ℕ) → Type 0
ReadsOwn (acted w a v q m' inside s x) stores = OwnPid a v (stores w.manager.current_task)
ReadsOwn (timer w frame esp m' h) stores = Unit

-- A run in which every read of `pid` does: no task stores there between the store of another one and its test.
abbrev pub IsUndisturbed : {entry : Entry → ℕ} {w w' : World} → Reaches entry w w' → Type 0
IsUndisturbed start = Unit
IsUndisturbed (next w' w'' r s) = IsUndisturbed r × ReadsOwn s (stores_of r)
