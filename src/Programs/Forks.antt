-- ===== src/Programs/Forks.antt =====
-- The tests of fork, waitpid and execve in source/src/kernel.cpp.
use implementing_os_and_syst.Base.{codes, ◌==◌, if◌then◌else◌}
use implementing_os_and_syst.Programs.{
  Program, spin, hello_entry, say, say_integer, scanf_then, sleep, exec, store_pid, load_pid, ◌>>=◌,
  ◌>>◌, sysfork, sysfork_return, getpid, waitpid, sysexit,
}

unfoldable pub forktask_3 : Program
forktask_3 = do
  say (codes "\nfork() test:\n")
  sysfork
  told ← sysfork_return
  store_pid told
  pid ← load_pid
  if pid == 0
      then (do
        say (codes "\nHello from child = ")
        own ← getpid
        say_integer own
        say (codes "\n")
        spin)
      else (do
        say (codes "\nHello from parent = ")
        own ← getpid
        say_integer own
        say (codes "\n")
        spin)

unfoldable pub forktask_4 : Program
forktask_4 = do
  say (codes "\nThree times fork() test:\n")
  say (codes "pid - message - getpid()\n")
  sysfork
  sysfork
  sysfork
  told ← sysfork_return
  store_pid told
  pid ← load_pid
  if pid == 0
      then (do
        say (codes "\n")
        shown ← load_pid
        say_integer shown
        say (codes " Hello from child  = ")
        own ← getpid
        say_integer own
        sysexit
        spin)
      else (do
        say (codes "\n")
        shown ← load_pid
        say_integer shown
        say (codes " Hello from parent = ")
        own ← getpid
        say_integer own
        sysexit
        spin)

unfoldable pub waitpidtask_1 : Program
waitpidtask_1 = do
  sysfork
  told ← sysfork_return
  store_pid told
  pid ← load_pid
  if pid == 0
      then (do
        say (codes "child started PID = ")
        own ← getpid
        say_integer own
        say (codes "\n")
        sleep 5
        say (codes "child ended\n")
        sysexit
        spin)
      else (do awaited ← load_pid; waitpid awaited; say (codes "parent started\n"); spin)

unfoldable pub waitpidtask_2 : Program
waitpidtask_2 = do
  say (codes "\nThree times fork() test with waitpid:\n")
  sysfork
  sysfork
  sysfork
  told ← sysfork_return
  store_pid told
  pid ← load_pid
  if pid == 0
      then (do
        say (codes "\n")
        say (codes "Hello from child = ")
        own ← getpid
        say_integer own
        sysexit
        spin)
      else (do
        awaited ← load_pid
        waitpid awaited
        say (codes "\n")
        say (codes "Hello from parent = ")
        own ← getpid
        say_integer own
        spin)

unfoldable pub execvetask_1 : Program
execvetask_1 = do
  say (codes "\nchild-> execve(hello_from_execve) test:\n")
  sysfork
  told ← sysfork_return
  store_pid told
  pid ← load_pid
  if pid == 0
      then (do
        exec hello_entry
        say (codes "\nHello from child = ")
        own ← getpid
        say_integer own
        spin)
      else (do say (codes "\nHello from parent = "); own ← getpid; say_integer own; spin)

pub test_scanf_function : Program
test_scanf_function = do
  say (codes "Please enter an integer: ")
  scanf_then (λ number. do say (codes "\nYou entered: "); say_integer number; spin)
