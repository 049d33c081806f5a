-- ===== src/Programs/Launchers.antt =====
-- The strategies of source/src/kernel.cpp, which start the workers.
use implementing_os_and_syst.Base.{ℕ, List, codes, ltb, leb, ◌==◌, if◌then◌else◌}
use implementing_os_and_syst.Programs.{
  Program, done, spin, forever, poll, Entry, collatz_entry, long_running_entry, binary_entry,
  linear_entry, input_entry, say, sleep, exec, load_count, count_up, store_pid, load_pid, ◌>>=◌,
  ◌>>◌, rounds, sysfork, sysfork_return, getpid, sys_process_table, waitpid, sysexit, set_priority,
  sys_interrupt_count, set_aging,
}

-- `sysfork(); pid = sysfork_return(); if(pid == 0)`, with what the child and what the parent does next: the test
-- reads `pid` again, which the other side of the fork may have stored by then.
abbrev pub spawn : Program → Program → Program
spawn child parent = do
  sysfork
  told ← sysfork_return
  store_pid told
  pid ← load_pid
  if pid == 0 then child else parent

-- A child that becomes a worker.
abbrev pub becomes : Entry → Program
becomes e = do exec e; spin

-- The loop of the main task at the end.
unfoldable pub watch : List ℕ → Program
watch text = forever (do say text; sys_process_table; sleep 1; done)

unfoldable pub part_a_strategy : Program
part_a_strategy = do
  say (codes "PART A - Strategy - Each program loading 3 times..\n\n")
  rounds 3 0 (λ i k. spawn (becomes collatz_entry) k)
      (rounds 3 0 (λ i k. spawn (becomes long_running_entry) k)
        (watch (codes "\nMain task waiting for all processes to terminate...\n")))

-- The child's `sysexit` would be behind its execve; the parent waits for each child before the next.
abbrev pub awaited : Entry → ℕ → Program → Program
awaited e i k = spawn (do exec e; sysexit; k) (do pid ← load_pid; waitpid pid; k)

unfoldable pub part_a_strategy_waitpid : Program
part_a_strategy_waitpid = do
  say (codes "PART A - Strategy - Each program loading 3 times(with waitpid)..\n\n")
  rounds 3 0 (awaited collatz_entry) (
      rounds 3 0 (awaited long_running_entry) (do
        say (codes "\n\n\n\n\n\n\n\n\n\n")
        say (codes "\nMain task waiting for all processes to terminate...\n")
        sys_process_table
        spin))

unfoldable pub part_b_first_strategy : Program
part_b_first_strategy = do
  say (codes "PART B - First Strategy - program loading 10 times..\n\n")
  rounds 10 0 (λ i k. spawn (becomes collatz_entry) k)
      (watch (codes "\nMain task waiting for all processes to terminate...\n"))

unfoldable pub part_b_second_strategy : Program
part_b_second_strategy = do
  say (codes "PART B - Second Strategy - Each program loading 3 times..\n\n")
  rounds 3 0 (λ i k. spawn (becomes binary_entry) k)
      (rounds 3 0 (λ i k. spawn (becomes linear_entry) k)
        (watch (codes "\nMain task waiting for all processes to terminate...\n")))

-- A child that sets its priority first.
abbrev pub becomes_at : ℕ → Entry → Program
becomes_at p e = do set_priority p; exec e; spin

unfoldable pub part_b_third_strategy : Program
part_b_third_strategy = do
  say (codes "PART B - Third Strategy - Fixed Priority starting with collatztask..\n\n")
  set_priority 5
  spawn (becomes_at 5 collatz_entry) (
      poll sys_interrupt_count (ltb 50) (
        spawn (becomes_at 5 binary_entry) (
          spawn (becomes_at 5 linear_entry) (
            spawn (becomes_at 5 long_running_entry) (do
              set_priority 10
              watch (codes "Main task waiting for all processes to terminate...\n"))))))

-- A child that waits for the parent to have started all four.
abbrev pub becomes_when_all : ℕ → Entry → Program
becomes_when_all p e = do set_priority p; poll load_count (leb 4) (becomes e)

unfoldable pub part_b_dynamic_strategy : Program
part_b_dynamic_strategy = do
  say (codes "PART B - Third Strategy - Dynamic Priority starting..\n\n")
  set_priority 5
  spawn (do pid ← getpid; set_aging pid; becomes_when_all 5 collatz_entry)
      (count_up
        >> spawn (becomes_when_all 4 binary_entry) (
            count_up
            >> spawn (becomes_when_all 2 linear_entry) (
                count_up
                >> spawn (becomes_when_all 3 long_running_entry) (
                    count_up
                    >> watch (codes "Main task waiting for all processes to terminate...\n")))))

unfoldable pub partb : Program
partb = do
  say (codes "Initializing system...\n")
  set_priority 10
  spawn (becomes_at 5 collatz_entry) (
      spawn (becomes_at 1 collatz_entry) (
        spawn (becomes_at 3 collatz_entry) (
          forever (do
            say (codes "Main task waiting for all processes to terminate...\n")
            sleep 1
            done))))

-- A child whose execve came back would go on in the loop.
unfoldable pub part_c_first_strategy : Program
part_c_first_strategy = do
  say (codes "PART C - First Strategy\n\n")
  rounds 3 0 (λ i k. spawn (do exec input_entry; k) k) spin
