-- ===== src/Programs/World/Runs.antt =====
-- The actions and the runs of the tasks of source/src/kernel.cpp, in an orderly world.
use implementing_os_and_syst.Base.{ℕ, ◌<◌, ◌≡◌, refl, sym, subst, ap, ◌∙◌, true, false, some, arith}
use implementing_os_and_syst.Multitasking.{TaskManager, max_tasks}
use implementing_os_and_syst.Multitasking.Invariant.{IsValid, keep}
use implementing_os_and_syst.Multitasking.Values.{Same}
use implementing_os_and_syst.Syscalls.{
  Syscall, fork_call, double_return_call, getpid_call, print_table_call, waitpid_call, exit_call,
  execve_call, set_priority_call, get_priority_call, intrpt_count_call, add_aging_call,
  set_state_call, default_call,
}
use implementing_os_and_syst.Syscalls.User.{sysexecve}
use implementing_os_and_syst.Syscalls.Values.{IsOther}
use implementing_os_and_syst.Programs.{Program, Action, Entry, call, exec}
use implementing_os_and_syst.Programs.Steps.{Step}
use implementing_os_and_syst.Programs.Protocol.{Mode, accept, Obeys, Remembers, storing, OwnPid}
use implementing_os_and_syst.Programs.Obedience.{
  Step-Obeys, is_fork, is_return, Knows-own, Remembers-storing,
}
use implementing_os_and_syst.Programs.World.{
  World, Moves, acted, timer, Reaches, start, next, Acts, called, executed, computed, next_programs,
  do_call, is_local, stored_at, stored_by, stores_of, ReadsOwn, IsUndisturbed,
}
use implementing_os_and_syst.Programs.World.Calls.{
  do_call-Keeps, fork_call_state, double_return_value, do_call-sysexecve,
}
use implementing_os_and_syst.Programs.World.Bound.{
  Fits, Fits-Same, IsOrderly, timer-IsOrderly, accept-Fits, return-Fits, fork_modes, unforked_step,
}
use implementing_os_and_syst.Programs.World.Forking.{fork_step}

-- A system call is a fork, the question behind it, or another.
pub data Kind : Syscall → Type 0 where
  fork_kind : Kind fork_call
  return_kind : Kind double_return_call
  other_kind :
      (c : Syscall)
      → IsOther c
      → ((x : ℕ) → (is_fork (call c x) ≡ false) × (is_return (call c x) ≡ false))
      → Kind c

pub kind : (c : Syscall) → Kind c
kind fork_call = fork_kind
kind double_return_call = return_kind
kind getpid_call = other_kind getpid_call tt (λ x. (refl, refl))
kind print_table_call = other_kind print_table_call tt (λ x. (refl, refl))
kind waitpid_call = other_kind waitpid_call tt (λ x. (refl, refl))
kind exit_call = other_kind exit_call tt (λ x. (refl, refl))
kind execve_call = other_kind execve_call tt (λ x. (refl, refl))
kind set_priority_call = other_kind set_priority_call tt (λ x. (refl, refl))
kind get_priority_call = other_kind get_priority_call tt (λ x. (refl, refl))
kind intrpt_count_call = other_kind intrpt_count_call tt (λ x. (refl, refl))
kind add_aging_call = other_kind add_aging_call tt (λ x. (refl, refl))
kind set_state_call = other_kind set_state_call tt (λ x. (refl, refl))
kind default_call = other_kind default_call tt (λ x. (refl, refl))

pub local_kind : (a : Action) → is_local a ≡ true → (is_fork a ≡ false) × (is_return a ≡ false)
local_kind a h = ground arith

-- The mode of the task that acts, before the action and behind it.
pub record Acting (b : ℕ) (stores : ℕ → ℕ) (w : World) (a : Action) (v : ℕ) (q : Program)
    : Type 0 where
  pub mode : Mode
  pub mode' : Mode
  pub fits : Fits b w.manager w.manager.current_task mode
  pub accepted : accept mode a v ≡ some mode'
  pub remembers : Remembers mode' (storing a (stores w.manager.current_task))
  pub obeys : Obeys mode' q

acting :
    (b : ℕ) (stores : ℕ → ℕ) (w : World) (a : Action) (v : ℕ) (q : Program)
    → IsOrderly b stores w
    → w.manager.current_task < w.manager.num_tasks
    → OwnPid a v (stores w.manager.current_task)
    → Step (w.programs w.manager.current_task) a v q
    → Acting b stores w a v q
acting b stores w a v q o inside own s =
    let x = stores w.manager.current_task in
    let (mode, f, k, ob) = o.plays w.manager.current_task inside in
    let (mode', e, ob') =
      Step-Obeys mode (w.programs w.manager.current_task) q a v ob (Knows-own mode a v x k own) s in
    record {
      mode = mode;
      mode' = mode';
      fits = f;
      accepted = e;
      remembers = Remembers-storing mode mode' a v x e;
      obeys = ob';
    }

abbrev moved : World → Program → TaskManager → World
moved w q m' = record { manager = m'; programs = next_programs w.manager m' q w.programs }

-- An action that is no fork and no question.
plain_step :
    (b : ℕ) (stores : ℕ → ℕ) (w : World) (a : Action) (v : ℕ) (q : Program) (m' : TaskManager)
    → IsOrderly b stores w
    → Acting b stores w a v q
    → is_fork a ≡ false
    → is_return a ≡ false
    → Same w.manager m'
    → IsValid m'
    → IsOrderly b (stored_at w.manager.current_task a stores) (moved w q m')
plain_step b stores w a v q m' o act nf nr s valid =
    let i = w.manager.current_task in
    unforked_step b stores w a q m' act.mode' o s valid
      (Fits-Same b i w.manager m' act.mode' s
        (accept-Fits b i v w.manager a act.mode act.mode' nf nr act.accepted act.fits))
      act.remembers act.obeys

fork_call_step :
    (b esp nested x v : ℕ) (stores : ℕ → ℕ) (w : World) (q : Program) (m' : TaskManager)
    → b < max_tasks
    → IsOrderly b stores w
    → w.manager.current_task < w.manager.num_tasks
    → Acting b stores w (call fork_call x) v q
    → do_call esp nested fork_call x w.manager ≡ some (m', v)
    → IsOrderly b (stored_at w.manager.current_task (call fork_call x) stores) (moved w q m')
fork_call_step b esp nested x v stores w q m' small o inside act h =
    let (n, e, e') = fork_modes v x act.mode act.mode' act.accepted in
    subst
      (λ t. IsOrderly b (stored_at w.manager.current_task (call fork_call x) stores) (moved w q t))
      (sym (fork_call_state esp nested x v w.manager m' h))
      (fork_step b esp n x stores w q small o inside
        (subst (Fits b w.manager w.manager.current_task) e act.fits)
        (subst (λ mode. Obeys mode q) e' act.obeys))

call_step :
    (b esp nested : ℕ) (c : Syscall) (x v : ℕ) (stores : ℕ → ℕ) (w : World) (q : Program)
    (m' : TaskManager)
    → Kind c
    → b < max_tasks
    → IsOrderly b stores w
    → w.manager.current_task < w.manager.num_tasks
    → Acting b stores w (call c x) v q
    → do_call esp nested c x w.manager ≡ some (m', v)
    → IsOrderly b (stored_at w.manager.current_task (call c x) stores) (moved w q m')
call_step b esp nested _ x v stores w q m' fork_kind small o inside act h =
    fork_call_step b esp nested x v stores w q m' small o inside act h
call_step b esp nested _ x v stores w q m' return_kind small o inside act h =
    let i = w.manager.current_task in
    let (s, valid) = do_call-Keeps esp nested double_return_call x w.manager tt o.valid m' v h in
    unforked_step b stores w (call double_return_call x) q m' act.mode' o s valid
      (Fits-Same b i w.manager m' act.mode' s (
        return-Fits b i v x w.manager act.mode act.mode'
          (double_return_value esp nested x v w.manager m' h) act.accepted act.fits))
      act.remembers act.obeys
call_step b esp nested _ x v stores w q m' (other_kind c ot k) small o inside act h =
    let (s, valid) = do_call-Keeps esp nested c x w.manager ot o.valid m' v h in
    plain_step b stores w (call c x) v q m' o act (k x).0 (k x).1 s valid

taken_step :
    (entry : Entry → ℕ) (b : ℕ) (a : Action) (v : ℕ) (stores : ℕ → ℕ) (w : World) (q : Program)
    (m m' : TaskManager)
    → m ≡ w.manager
    → b < max_tasks
    → IsOrderly b stores w
    → w.manager.current_task < w.manager.num_tasks
    → Acting b stores w a v q
    → Acts entry a v m m'
    → IsOrderly b (stored_at w.manager.current_task a stores) (moved w q m')
taken_step entry b _ _ stores w q _ _ e small o inside act (called esp nested c x v m m' h) =
    call_step b esp nested c x v stores w q m' (kind c) small o inside act
      (ap (do_call esp nested c x) (sym e) ∙ h)
taken_step entry b _ _ stores w q _ _ e small o inside act (executed esp nested f v m m' h) =
    let (s, valid) = do_call-Keeps esp nested execve_call (entry f) w.manager tt o.valid m' v (
      do_call-sysexecve esp nested (entry f) w.manager
      ∙ ap (sysexecve esp nested (entry f)) (sym e)
      ∙ h) in
    plain_step b stores w (exec f) v q m' o act refl refl s valid
taken_step entry b _ _ stores w q _ _ e small o inside act (computed a v mem m l) =
    let k = local_kind a l in
    let m1 = record w.manager { mem = mem } in
    subst
      (λ (t : TaskManager).
        IsOrderly b (stored_at w.manager.current_task a stores)
          (moved w q (record t { mem = mem })))
      (sym e)
      (plain_step b stores w a v q m1 o act k.0 k.1 (record { count = refl; values = λ i. refl })
        (keep w.manager m1 o.valid refl refl refl (λ i. refl)))

Moves-IsOrderly :
    (entry : Entry → ℕ) (b : ℕ) (stores : ℕ → ℕ) (w w' : World)
    → b < max_tasks
    → (s : Moves entry w w') → ReadsOwn s stores
    → IsOrderly b stores w
    → IsOrderly b (stored_by s stores) w'
Moves-IsOrderly entry b stores _ _ small (acted w a v q m' inside s x) own o =
    taken_step entry b a v stores w q w.manager m' refl small o inside
      (acting b stores w a v q o inside own s) x
Moves-IsOrderly entry b stores _ _ small (timer w frame esp m' h) own o =
    timer-IsOrderly b frame esp stores w m' o h

-- Every world that an undisturbed run reaches is orderly.
pub Reaches-IsOrderly :
    (entry : Entry → ℕ) (b : ℕ) (w w' : World)
    → b < max_tasks
    → (r : Reaches entry w w') → IsUndisturbed r
    → IsOrderly b (λ i. 0) w
    → IsOrderly b (stores_of r) w'
Reaches-IsOrderly entry b w _ small start u o = o
Reaches-IsOrderly entry b w _ small (next w' w'' r s) u o =
    Moves-IsOrderly entry b (stores_of r) w' w'' small s u.1
      (Reaches-IsOrderly entry b w w' small r u.0 o)
