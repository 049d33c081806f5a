-- ===== src/Programs.antt =====
-- The task bodies of source/src/kernel.cpp as programs: what a task does, by the answers that it gets. `pid`
-- and `initializedProcesses` lie in a frame that fork leaves to both sides: each of their reads is an
-- action, with any answer. The other locals of a body are its own.
pub mod Workers
pub mod Forks
pub mod Launchers
pub mod Steps
pub mod Protocol
pub mod Obedience
pub mod AtMost
pub mod Ends
pub mod Strategies
pub mod World
mod Tests
use implementing_os_and_syst.Base.{ℕ, zero, suc, ◌+◌, Bool, Option, none, some, List, [], ◌∷◌}
use implementing_os_and_syst.Syscalls.{
  Syscall, fork_call, double_return_call, getpid_call, print_table_call, waitpid_call, exit_call,
  set_priority_call, get_priority_call, intrpt_count_call, add_aging_call, set_state_call,
}

-- The functions that sysexecve is called with.
pub data Entry : Type 0 where
  collatz_entry long_running_entry binary_entry linear_entry input_entry hello_entry : Entry

-- What a task does: the system calls with their argument (0 where there is none), printf, print_integer and printCollatz, the wait of scanf,
-- sleep, sysexecve, a computation that changes nothing and has come to a value, the reads and the increments of
-- `initializedProcesses`, and the stores and the reads of `pid`.
pub data Action : Type 0 where
  call : Syscall → ℕ → Action
  say : List ℕ → Action
  say_integer : ℕ → Action
  say_collatz : ℕ → Action
  scan : Action
  sleep : ℕ → Action
  exec : Entry → Action
  work : ℕ → Action
  load_count count_up : Action
  store_pid : ℕ → Action
  load_pid : Action

-- `spin` is `while(1);`, `forever b` is `while(1) { b }`, where `done` in `b` ends a round; `poll` does an action until
-- its answer passes a test.
pub data Program : Type 0 where
  done spin : Program
  act : Action → (ℕ → Program) → Program
  forever : Program → Program
  poll : Action → (ℕ → Bool) → Program → Program

infixr 5 ◌>>=◌ ◌>>◌
abbrev pub ◌>>=◌ : Action → (ℕ → Program) → Program
a >>= k = act a k

abbrev pub ◌>>◌ : Action → Program → Program
a >> p = act a (λ v. p)

-- `for (int i = ...; ...; i++)`, `n` rounds of it from `i` on, and what follows it.
unfoldable pub rounds : ℕ → ℕ → (ℕ → Program → Program) → Program → Program
rounds zero i body k = k
rounds (suc n) i body k = body i (rounds n (i + 1) body k)

-- What follows a loop: nothing, where the loop does not come to its end.
unfoldable pub ending : Option ℕ → (ℕ → Program) → Program
ending none k = spin
ending (some v) k = k v

-- The wrappers of the system calls.
abbrev pub sysfork : Action
sysfork = call fork_call 0

abbrev pub sysfork_return : Action
sysfork_return = call double_return_call 0

abbrev pub getpid : Action
getpid = call getpid_call 0

abbrev pub sys_process_table : Action
sys_process_table = call print_table_call 0

abbrev pub waitpid : ℕ → Action
waitpid pid = call waitpid_call pid

abbrev pub sysexit : Action
sysexit = call exit_call 0

abbrev pub set_priority : ℕ → Action
set_priority p = call set_priority_call p

abbrev pub sys_get_priority : Action
sys_get_priority = call get_priority_call 0

abbrev pub sys_interrupt_count : Action
sys_interrupt_count = call intrpt_count_call 0

abbrev pub set_aging : ℕ → Action
set_aging pid = call add_aging_call pid

-- scanf, which makes the task ready at its end.
abbrev pub scanf_then : (ℕ → Program) → Program
scanf_then k = do number ← scan; call set_state_call 0; k number
