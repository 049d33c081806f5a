-- ===== src/Programs/Workers.antt =====
-- The bodies that sysexecve starts, in source/src/kernel.cpp.
use implementing_os_and_syst.Base.{ℕ, zero, suc, ◌+◌, ◌^◌, Option, none, some, List, [], ◌∷◌, codes}
use implementing_os_and_syst.Kernel.Collatz.{calculate_collatz}
use implementing_os_and_syst.Kernel.Products.{long_running_program}
use implementing_os_and_syst.Machine.{minus_one}
use implementing_os_and_syst.Kernel.Sleep
use implementing_os_and_syst.Kernel.Search.{binary_search, linear_search}
use implementing_os_and_syst.Programs.{
  Program, done, spin, forever, Entry, collatz_entry, long_running_entry, binary_entry,
  linear_entry, input_entry, hello_entry, say, say_integer, say_collatz, scanf_then, sleep, work,
  ending, ◌>>=◌, ◌>>◌, rounds, getpid, sys_process_table, sysexit, sys_get_priority,
}

-- A result of a search as an `int`.
abbrev pub as_int : Option ℕ → ℕ
as_int none = minus_one
as_int (some i) = i

-- The loop of sleep(1), with fuel for its rounds.
abbrev pub one_second : Option ℕ
one_second = Sleep.sleep 50_000_001 1

-- The body of the loop of a worker: its line, its computation and its pause. `value` is what the computation comes
-- to, and `none` where it does not end; so is the end of the pause.
unfoldable pub report : List ℕ → Option ℕ → ℕ → Program → Program
report name value i k = do
  say name
  say_integer (i + 1)
  say (codes "/10 times")
  say (codes " PID = ")
  pid ← getpid
  say_integer pid
  say (codes " Priority = ")
  priority ← sys_get_priority
  say_integer priority
  say (codes "\n")
  ending value (λ v. work v >> ending one_second (λ w. sleep 1 >> k))

-- The end of a worker.
abbrev pub finished : Program
finished = do sysexit; done

-- The elements of an array as the searches take them, with 2 ^ 31 added; 0 behind its end.
abbrev pub elements : List ℕ → ℕ → ℕ
elements [] i = 0
elements (x ∷ xs) zero = x + 2 ^ 31
elements (x ∷ xs) (suc i) = elements xs i

-- calculate_Collatz(100) comes to 1 in 25 rounds; `int` variables are below 2 ^ 32.
unfoldable pub collatztask : Program
collatztask =
    rounds 10 0 (report (codes "collatz_task(100) running for ") (calculate_collatz 25 100))
      finished

unfoldable pub longrunningtask : Program
longrunningtask =
    rounds 10 0
      (report (codes "long_running_task(1000) running for ") (some (long_running_program 1000)))
      finished

abbrev pub sorted_array : ℕ → ℕ
sorted_array = elements (10 ∷ 20 ∷ 30 ∷ 50 ∷ 60 ∷ 80 ∷ 100 ∷ 110 ∷ 130 ∷ 170 ∷ [])

unfoldable pub binar_search_task : Program
binar_search_task =
    rounds 10 0
      (report (codes "binar_search_task(arr) running for ")
        (some (as_int (binary_search sorted_array 10 (110 + 2 ^ 31)))))
      finished

abbrev pub unsorted_array : ℕ → ℕ
unsorted_array = elements (10 ∷ 20 ∷ 80 ∷ 30 ∷ 60 ∷ 50 ∷ 110 ∷ 100 ∷ 130 ∷ 170 ∷ [])

unfoldable pub linear_search_task : Program
linear_search_task =
    rounds 10 0
      (report (codes "linear_search_task(arr) running for ")
        (some (as_int (linear_search unsorted_array 10 (175 + 2 ^ 31)))))
      finished

unfoldable pub collatztask_with_input : Program
collatztask_with_input = forever (do
  say (codes "\nPID: ")
  pid ← getpid
  say_integer pid
  say (codes " Please enter an integer: ")
  scanf_then (λ number. do
    say (codes "PID: ")
    pid_again ← getpid
    say_integer pid_again
    say (codes " ")
    say_collatz number
    sys_process_table
    done))

unfoldable pub hello_from_execve : Program
hello_from_execve = do say (codes "\nHello from execve = "); pid ← getpid; say_integer pid; spin

-- The body that stands at an entry point.
unfoldable pub body : Entry → Program
body collatz_entry = collatztask
body long_running_entry = longrunningtask
body binary_entry = binar_search_task
body linear_entry = linear_search_task
body input_entry = collatztask_with_input
body hello_entry = hello_from_execve
