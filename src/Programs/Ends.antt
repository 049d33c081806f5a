-- ===== src/Programs/Ends.antt =====
-- The workers of source/src/kernel.cpp come to their end, and what they print until then.
pub mod Lines
use implementing_os_and_syst.Base.{
  ℕ, zero, suc, ◌+◌, ◌*◌, ◌^◌, ◌≡◌, Option, some, List, ◌∷◌, ◌++◌, codes,
}
use implementing_os_and_syst.Kernel.Integers.{int_to_string}
use implementing_os_and_syst.Kernel.Sleep.{sleep_ends}
use implementing_os_and_syst.Kernel.Collatz.{calculate_collatz, collatz_next}
use implementing_os_and_syst.Kernel.Products.{long_running_program, long_running_program_lem}
use implementing_os_and_syst.Kernel.Search.{binary_search, binary_loop, linear_search, linear_loop}
use implementing_os_and_syst.Machine.{minus_one}
use implementing_os_and_syst.Syscalls.{getpid_call, get_priority_call}
use implementing_os_and_syst.Programs.{
  Program, ending, Entry, collatz_entry, long_running_entry, binary_entry, linear_entry, rounds,
}
use implementing_os_and_syst.Programs.Workers.{
  report, one_second, as_int, sorted_array, unsorted_array, finished, collatztask, longrunningtask,
  binar_search_task, linear_search_task,
}
use implementing_os_and_syst.Programs.Ends.Lines.{Shown, text, result, Prints}

module _ (pid priority : ℕ) where
  -- What remains of a program behind an action, or behind a run.
  pub record Left (n : ℕ) (content shown : List Shown) (count : ℕ) (q : Program) : Type 0 where
    pub more : ℕ
    pub rest : List Shown
    pub count_is : count + more ≡ n
    pub text_is : shown ++ rest ≡ content
    pub prints : Prints pid priority more rest q
