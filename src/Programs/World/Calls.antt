-- ===== src/Programs/World/Calls.antt =====
-- What a system call of a task does to the table of source/src/multitasking.cpp.
use implementing_os_and_syst.Base.{ℕ, ◌≡◌, refl, sym, subst, ◌∙◌, Option, some, none}
use implementing_os_and_syst.Machine.CpuState
use implementing_os_and_syst.Multitasking.{TaskManager, fork, current}
use implementing_os_and_syst.Multitasking.Invariant.{IsValid, keep}
use implementing_os_and_syst.Multitasking.Values.{Same, Same-refl}
use implementing_os_and_syst.Syscalls.{
  Syscall, fork_call, double_return_call, getpid_call, print_table_call, waitpid_call, exit_call,
  execve_call, set_priority_call, get_priority_call, intrpt_count_call, add_aging_call,
  set_state_call, default_call, handle_interrupt, perform, select, sys_fork, sys_getpid,
  sys_print_table, sys_double_return, sys_waitpid, sys_exit, sys_execve, sys_set_priority,
  sys_intrpt_count, sys_add_aging, sys_get_priority, sys_set_state,
}
use implementing_os_and_syst.Syscalls.Laws.{handle_interrupt-EndsValid}
use implementing_os_and_syst.Syscalls.Values.{IsOther, perform-EndsSame}
use implementing_os_and_syst.Syscalls.User
use implementing_os_and_syst.Syscalls.User.{
  enter, enter_with, enter_lem, enter_with_lem, result, getters-Reads,
}
use implementing_os_and_syst.Programs.World.{do_call}

-- Where the call ends, the table is valid and has the same tasks and values of forks.
abbrev pub Keeps : TaskManager → Option (TaskManager × ℕ) → Type 0
Keeps m r = (m' : TaskManager) (v : ℕ) → r ≡ some (m', v) → Same m m' × IsValid m'

pub chosen :
    {a b : TaskManager} {p q : ℕ}
    → ◌≡◌ {A = Option (TaskManager × ℕ)} (some (a, p)) (some (b, q))
    → (a ≡ b) × (p ≡ q)
chosen h = (cc, cc)

result_keeps :
    (register : ℕ → ℕ) (m : TaskManager) (r : Option (TaskManager × ℕ))
    → Keeps m r
    → Keeps m (result register r)
result_keeps register m none k m' v h = cc
result_keeps register m (some r) k m' v h =
    let (s, w) = k r.0 r.1 refl in let e = (chosen h).0 in (subst (Same m) e s, subst IsValid e w)

with_mem : (m : TaskManager) (mem : ℕ → ℕ) → IsValid m → IsValid (record m { mem = mem })
with_mem m mem v = keep m (record m { mem = mem }) v refl refl refl (λ i. refl)

module _ (esp nested : ℕ) where
  -- A handler that ends in `perform c` from a state with another memory.
  handled :
      (m : TaskManager) (mem : ℕ → ℕ) (c : Syscall)
      → IsOther c
      → IsValid m
      → let b = record m { mem = mem } in
        handle_interrupt esp nested b ≡ perform c esp nested b
        → Keeps m (handle_interrupt esp nested b)
  handled m mem c o v e m' x h =
      let b = record m { mem = mem } in
      let (m1, _, e1, v1) = handle_interrupt-EndsValid esp nested b (with_mem m mem v) in
      let (m2, _, e2, s2) = perform-EndsSame c esp nested b o in
      (
        record {
          count = (subst (Same b) (chosen (sym e2 ∙ sym e ∙ h)).0 s2).count;
          values = (subst (Same b) (chosen (sym e2 ∙ sym e ∙ h)).0 s2).values;
        },
        subst IsValid (chosen (sym e1 ∙ h)).0 v1,
      )

  plain :
      (number : ℕ) (m : TaskManager)
      → IsOther (select number)
      → IsValid m
      → Keeps m (handle_interrupt esp nested (enter number esp m))
  plain number m o v =
      handled m (enter number esp m).mem (select number) o v (enter_lem esp nested number m)

  with_argument :
      (number argument : ℕ) (m : TaskManager)
      → IsOther (select number)
      → IsValid m
      → Keeps m (handle_interrupt esp nested (enter_with number argument esp m))
  with_argument number argument m o v =
      handled m (enter_with number argument esp m).mem (select number) o v
        (enter_with_lem esp nested number argument m)

  pub do_call-Keeps :
      (c : Syscall) (x : ℕ) (m : TaskManager)
      → IsOther c
      → IsValid m
      → Keeps m (do_call esp nested c x m)
  unfolding do_call select User.sysfork_return User.getpid User.sys_process_table User.user_waitpid
      User.sysexit User.sysexecve User.set_priority User.user_get_priority User.sys_interrupt_count
      User.set_aging User.set_task_state
  do_call-Keeps fork_call x m o v = absurd o
  do_call-Keeps double_return_call x m o v =
      result_keeps CpuState.ebx m _ (plain sys_double_return m tt v)
  do_call-Keeps getpid_call x m o v = result_keeps CpuState.ecx m _ (plain sys_getpid m tt v)
  do_call-Keeps print_table_call x m o v = plain sys_print_table m tt v
  do_call-Keeps waitpid_call x m o v = with_argument sys_waitpid x m tt v
  do_call-Keeps exit_call x m o v = plain sys_exit m tt v
  do_call-Keeps execve_call x m o v = with_argument sys_execve x m tt v
  do_call-Keeps set_priority_call x m o v = with_argument sys_set_priority x m tt v
  do_call-Keeps get_priority_call x m o v =
      result_keeps CpuState.edx m _ (plain sys_get_priority m tt v)
  do_call-Keeps intrpt_count_call x m o v =
      result_keeps CpuState.edx m _ (plain sys_intrpt_count m tt v)
  do_call-Keeps add_aging_call x m o v = with_argument sys_add_aging x m tt v
  do_call-Keeps set_state_call x m o v = with_argument sys_set_state x m tt v
  do_call-Keeps default_call x m o v =
      λ m' y h. let e = (chosen h).0 in (subst (Same m) e (Same-refl m), subst IsValid e v)

  -- The task manager behind SYS_FORK.
  pub fork_call_state :
      (x v : ℕ) (m m' : TaskManager)
      → do_call esp nested fork_call x m ≡ some (m', v)
      → m' ≡ fork esp (enter sys_fork esp m)
  unfolding do_call select perform User.sysfork
  fork_call_state x v m m' h = (chosen (sym h ∙ enter_lem esp nested sys_fork m)).0

  -- The answer of SYS_DOUBLE_RETURN.
  pub double_return_value :
      (x v : ℕ) (m m' : TaskManager)
      → do_call esp nested double_return_call x m ≡ some (m', v)
      → v ≡ (current m).eax_value
  unfolding do_call
  double_return_value x v m m' h = (chosen (sym h ∙ (getters-Reads esp nested m).3.value_is)).1

  pub do_call-sysexecve :
      (x : ℕ) (m : TaskManager) → do_call esp nested execve_call x m ≡ User.sysexecve esp nested x m
  unfolding do_call
  do_call-sysexecve x m = refl
