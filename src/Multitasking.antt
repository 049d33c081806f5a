-- ===== src/Multitasking.antt =====
-- source/src/multitasking.cpp and source/include/multitasking.h: tasks and the task manager. The process table is a
-- function from array indices; tasks[-1], which the code may touch, is the cell at the pattern of -1.
pub mod Lookup
pub mod Invariant
pub mod Create
pub mod Fork
pub mod Scheduler
pub mod Wait
pub mod Growth
pub mod Values
pub mod Table
mod Tests
use Prim.Native.String.{String}
use implementing_os_and_syst.Base.{
  ℕ, ◌≡◌, refl, zero, suc, ◌+◌, ◌-◌, ◌%◌, ◌^◌, Bool, true, false, not, ◌&&◌, ◌||◌, Option, none,
  some, List, [], ◌∷◌, ◌++◌, ltb, leb, ◌==◌, if◌then◌else◌,
}
use implementing_os_and_syst.Machine.{
  Memory, word_mod, minus_one, signed_lt, write, copy_state, copy_stack,
}
use implementing_os_and_syst.Machine.CpuState
use implementing_os_and_syst.Gdt.{code_segment_selector}

pub data State : Type 0 where
  ready running blocked terminated : State

abbrev pub is_blocked : State → Bool
is_blocked blocked = true
is_blocked _ = false

abbrev pub is_terminated : State → Bool
is_terminated terminated = true
is_terminated _ = false

-- `cpustate` and `stack` are addresses; the words of the stack lie in the memory.
pub record Task : Type 0 where
  pub cpustate : ℕ
  pub stack : ℕ
  pub eax_value : ℕ
  pub pid : ℕ
  pub ppid : ℕ
  pub priority : ℕ
  pub state : State
  pub waiting_process : ℕ

-- What the manager prints: literal text, and numbers through `print_integer`.
pub data Output : Type 0 where
  text : String → Output
  integer : ℕ → Output

abbrev pub max_tasks : ℕ
max_tasks = 256

-- `next_pid`, a static member, is one of the fields.
pub record TaskManager : Type 0 where
  pub mem : Memory
  pub tasks : ℕ → Task
  pub gdt : ℕ
  pub num_tasks : ℕ
  pub current_task : ℕ
  pub interrupt_count : ℕ
  pub aging_pid : ℕ
  pub next_pid : ℕ
  pub out : List Output

abbrev pub update : (ℕ → Task) → ℕ → Task → ℕ → Task
update tasks i t j = if i == j then t else tasks j

abbrev pub current : TaskManager → Task
current m = m.tasks m.current_task

-- `tasks[i].state = s`
abbrev pub set_state : ℕ → State → (ℕ → Task) → ℕ → Task
set_state i s tasks = update tasks i (record (tasks i) { state = s })

-- The address that `createProcess` gives to `cpustate`.
abbrev pub stack_top : Task → ℕ
stack_top t = t.stack + 4096 - CpuState.size

-- The stores of `createProcess` through `cpustate`, in order.
pub init_registers : ℕ → ℕ → ℕ → Memory → Memory
init_registers gdt entry p m0 =
    let m1 = write m0 (CpuState.eax p) 0 in
    let m2 = write m1 (CpuState.ebx p) 0 in
    let m3 = write m2 (CpuState.ecx p) 0 in
    let m4 = write m3 (CpuState.edx p) 0 in
    let m5 = write m4 (CpuState.esi p) 0 in
    let m6 = write m5 (CpuState.edi p) 0 in
    let m7 = write m6 (CpuState.ebp p) 0 in
    let m8 = write m7 (CpuState.eip p) entry in
    let m9 = write m8 (CpuState.cs p) (code_segment_selector gdt) in
    write m9 (CpuState.eflags p) 0x202

-- The members that `createProcess` sets.
abbrev pub created : Task → ℕ → ℕ → ℕ → Task
created t pid ppid priority = record t {
  cpustate = stack_top t;
  pid = pid;
  ppid = ppid;
  priority = priority;
  state = ready;
}

-- Task::createProcess.
pub create_process : ℕ → ℕ → ℕ → ℕ → ℕ → Task → Memory → Task × Memory
unfolding init_registers
create_process gdt entry pid ppid priority t m =
    (created t pid ppid priority, init_registers gdt entry (stack_top t) m)

-- The constructors Task(gdt, entrypoint) and, at a null gdt and entry point, Task(). They leave
-- `eax_value` as the memory held it; `waitingProcess` begins at -1.
unfoldable pub new_task : ℕ → ℕ → ℕ → ℕ → Memory → Task × Memory
unfolding create_process
new_task stack eax_value gdt entry m =
    create_process gdt entry minus_one minus_one minus_one
      (record {
        cpustate = 0;
        stack = stack;
        eax_value = eax_value;
        pid = 0;
        ppid = 0;
        priority = 0;
        state = ready;
        waiting_process = minus_one;
      })
      m

-- The constructor of TaskManager, over the memory and the table that the constructors of the tasks
-- leave.
unfoldable pub task_manager : ℕ → Memory → (ℕ → Task) → TaskManager
task_manager gdt m tasks = record {
  mem = m;
  tasks = tasks;
  gdt = gdt;
  num_tasks = 0;
  current_task = minus_one;
  interrupt_count = 0;
  aging_pid = minus_one;
  next_pid = 0;
  out = [];
}

-- The entry that AddTask writes: the priority of the entry is not set.
abbrev pub added : ℕ → Task → Task
added pid dest = record dest { pid = pid; ppid = minus_one; state = ready }

-- The fields of the task that AddTask is given, after the call.
abbrev pub labelled : ℕ → Task → Task
labelled pid task = record task { pid = pid; ppid = minus_one; priority = minus_one; state = ready }

-- TaskManager::AddTask. The task that it is given comes back relabelled.
unfoldable pub add_task : Task → TaskManager → Bool × Task × TaskManager
add_task task m = if leb max_tasks m.num_tasks then (false, task, m) else (
  true,
  labelled m.next_pid task,
  record m {
    tasks = update m.tasks m.num_tasks (added m.next_pid (m.tasks m.num_tasks));
    mem =
        copy_state task.cpustate (m.tasks m.num_tasks).cpustate
          (copy_stack task.stack (m.tasks m.num_tasks).stack m.mem);
    num_tasks = m.num_tasks + 1;
    next_pid = (m.next_pid + 1) % word_mod;
  },
)

-- The full table: fork returns -1 to the parent.
pub fork_full : TaskManager → TaskManager
fork_full m = record m {
  tasks = update m.tasks m.current_task (record (current m) { eax_value = minus_one });
}

-- The memory after a fork: the fresh child frame, the copy of the parent's stack over it, the copy of
-- the frame of the call over the top, and the two values of eax.
pub fork_memory : ℕ → ℕ → Task → Task → ℕ → Memory → Memory
unfolding init_registers
fork_memory gdt frame parent child pid m =
    let m1 = init_registers gdt (m (CpuState.eip parent.cpustate)) (stack_top child) m in
    let m2 = copy_stack parent.stack child.stack m1 in
    let m3 = copy_state frame (stack_top child) m2 in
    let m4 = write m3 (CpuState.eax (stack_top child)) 0 in write m4 (CpuState.eax frame) pid

-- The table with the child's entry.
pub with_child : ℕ → ℕ → ℕ → (ℕ → Task) → ℕ → Task
with_child parent child pid tasks =
    update tasks child
      (record (created (tasks child) pid (tasks parent).pid minus_one) { eax_value = 0 })

-- The table after a fork: the parent gets the child's pid.
unfoldable pub fork_tasks : ℕ → ℕ → ℕ → (ℕ → Task) → ℕ → Task
fork_tasks parent child pid tasks =
    let t = with_child parent child pid tasks in
    update t parent (record (t parent) { eax_value = pid })

-- TaskManager::fork, over the address of the register frame of the system call.
unfoldable pub fork : ℕ → TaskManager → TaskManager
unfolding fork_full
fork frame m = if leb max_tasks m.num_tasks then fork_full m else record m {
  tasks = fork_tasks m.current_task m.num_tasks m.next_pid m.tasks;
  mem = fork_memory m.gdt frame (current m) (m.tasks m.num_tasks) m.next_pid m.mem;
  num_tasks = m.num_tasks + 1;
  next_pid = (m.next_pid + 1) % word_mod;
}

-- The loop of findTaskByPID over the `k` entries from index `i` on.
pub find_from : ℕ → ℕ → ℕ → (ℕ → Task) → ℕ
find_from zero i pid tasks = minus_one
find_from (suc k) i pid tasks = if (tasks i).pid == pid then i else find_from k (i + 1) pid tasks

-- TaskManager::findTaskByPID; -1 where there is none.
pub find_task_by_pid : ℕ → TaskManager → ℕ
unfolding find_from
find_task_by_pid pid m = find_from m.num_tasks 0 pid m.tasks

-- How a call that may force a reschedule ends: it returns a value, or it stands in `int $0x20`, to
-- return 0 when its task is chosen again.
pub data Outcome : Type 0 where
  returns : ℕ → Outcome
  reschedules : Outcome

-- The current task blocks, and the child at `index` notes it as its waiter.
pub block_on : ℕ → TaskManager → TaskManager
block_on index m =
    let t = set_state m.current_task blocked m.tasks in
    record m {
      tasks = update t index (record (t index) { waiting_process = (t m.current_task).pid });
    }

-- TaskManager::waitpid.
pub waitpid : ℕ → TaskManager → TaskManager × Outcome
unfolding find_task_by_pid block_on
waitpid pid m =
    let index = find_task_by_pid pid m in
    if index == minus_one
    then (m, returns minus_one)
    else (if is_terminated (m.tasks index).state
        then (m, returns 0)
        else (block_on index m, reschedules))

-- The wake-up loop of exit over the `k` entries from index `i` on.
pub wake_from : ℕ → ℕ → ℕ → (ℕ → Task) → ℕ → Task
wake_from zero i pid tasks = tasks
wake_from (suc k) i pid tasks = wake_from k (i + 1) pid (
    if ((tasks i).waiting_process == pid) && is_blocked (tasks i).state
    then set_state i ready tasks
    else tasks)

-- TaskManager::exit.
pub exit : TaskManager → TaskManager × Outcome
unfolding wake_from
exit m = (
  record m {
    tasks = wake_from m.num_tasks 0 (current m).pid (set_state m.current_task terminated m.tasks);
  },
  reschedules,
)

-- TaskManager::execve. Its result is the address of the fresh frame.
pub execve : ℕ → TaskManager → TaskManager × ℕ
unfolding create_process
execve entry m =
    let t = current m in
    let (t', mem') = create_process m.gdt entry t.pid t.ppid t.priority t m.mem in
    (record m { tasks = update m.tasks m.current_task t'; mem = mem' }, t'.cpustate)

-- The one-line calls of the system call handler.
unfoldable pub set_current_priority : ℕ → TaskManager → TaskManager
set_current_priority priority m = record m {
  tasks = update m.tasks m.current_task (record (current m) { priority = priority });
}

unfoldable pub set_current_state : State → TaskManager → TaskManager
set_current_state s m = record m { tasks = set_state m.current_task s m.tasks }

pub set_aging_pid : ℕ → TaskManager → TaskManager
set_aging_pid pid m = record m { aging_pid = pid }

unfoldable pub get_pid : TaskManager → ℕ
get_pid m = (current m).pid

unfoldable pub get_eax_val : TaskManager → ℕ
get_eax_val m = (current m).eax_value

pub get_eax_val_lem : (m : TaskManager) → get_eax_val m ≡ (current m).eax_value
unfolding get_eax_val
get_eax_val_lem m = refl

unfoldable pub get_priority : TaskManager → ℕ
get_priority m = (current m).priority
