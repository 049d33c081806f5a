-- ===== src/Programs/World/Forking.antt =====
-- sysfork of a task of source/src/kernel.cpp in an orderly world.
use implementing_os_and_syst.Base.{
  ℕ, suc, ◌<◌, ◌≡◌, ◌≢◌, refl, sym, subst, ap, ◌∙◌, inl, inr, ℕ_discrete, arith,
}
use implementing_os_and_syst.Multitasking.{TaskManager, fork, max_tasks}
use implementing_os_and_syst.Multitasking.Invariant.{keep, fork-IsValid}
use implementing_os_and_syst.Multitasking.Values.{fork_values}
use implementing_os_and_syst.Syscalls.{sys_fork, fork_call}
use implementing_os_and_syst.Syscalls.User.{enter}
use implementing_os_and_syst.Programs.{Program, call}
use implementing_os_and_syst.Programs.Protocol.{
  Mode, parent, forked, told, stored, child, worker, Obeys, Remembers,
}
use implementing_os_and_syst.Programs.World.{World, next_programs, stored_at}
use implementing_os_and_syst.Programs.World.Bound.{
  value, Fits, IsOrderly, next_current, next_other, next_child, stored_elsewhere,
}

-- A task that is not the first is not a parent.
child-Fits :
    (b i : ℕ) (m m' : TaskManager) (mode : Mode)
    → i ≢ 0
    → value m' i ≡ value m i
    → Fits b m i mode
    → Fits b m' i mode
child-Fits b i m m' (parent n) o e f = ground arith
child-Fits b i m m' (forked n) o e (inl f) = inl (o, e ∙ f.1)
child-Fits b i m m' (forked n) o e (inr f) = ground arith
child-Fits b i m m' (told n x) o e (inl f) = inl f
child-Fits b i m m' (told n x) o e (inr f) = ground arith
child-Fits b i m m' (stored n x) o e (inl f) = inl f
child-Fits b i m m' (stored n x) o e (inr f) = ground arith
child-Fits b i m m' child o e f = o
child-Fits b i m m' worker o e f = o

pub fork_step :
    (b esp n x : ℕ) (stores : ℕ → ℕ) (w : World) (q : Program)
    → b < max_tasks
    → IsOrderly b stores w
    → w.manager.current_task < w.manager.num_tasks
    → Fits b w.manager w.manager.current_task (parent (suc n))
    → Obeys (forked n) q
    → let m' = fork esp (enter sys_fork esp w.manager) in
      IsOrderly b
        (stored_at w.manager.current_task (call fork_call x) stores)
        (record { manager = m'; programs = next_programs w.manager m' q w.programs })
fork_step b esp n x stores w q small o inside f ob =
    let m = w.manager in
    let m1 = enter sys_fork esp m in
    let m' = fork esp m1 in
    let fv = fork_values esp m1 (omega arith) (omega arith) in
    let pid = o.valid.next_is_count in
    record {
      valid = fork-IsValid esp m1 (keep m m1 o.valid refl refl refl (λ i. refl));
      tasks_bound = omega (arith, fv.0, f.1);
      plays = λ i l. elim (ℕ_discrete i m.current_task) [
        | yes e ↦ (
          forked n,
          inr (
            omega arith,
            λ z. let own = ap (value m') e ∙ fv.3 in omega (arith, own, pid, z),
            omega (arith, fv.0, f.1),
          ),
          tt,
          subst (Obeys (forked n)) (sym (next_current m m' q w.programs i e)) ob,
        )
        | no ne ↦ elim (ℕ_discrete i m.num_tasks) [
          | yes e ↦ (
            forked n,
            inl (omega arith, ap (value m') e ∙ fv.2),
            tt,
            subst (Obeys (forked n))
                (sym (
                  ap (next_programs m m' q w.programs) e
                  ∙ next_child m m' q w.programs inside (omega (arith, fv.0))))
                ob,
          )
          | no away ↦
              let (mode, f1, k1, ob1) = o.plays i (omega (arith, fv.0)) in
              (
                mode,
                child-Fits b i m m' mode (omega arith) (fv.4 i away ne) f1,
                subst (Remembers mode)
                    (sym (stored_elsewhere m.current_task i (call fork_call x) stores ne)) k1,
                subst (Obeys mode) (sym (next_other m m' q w.programs i ne (inl away))) ob1,
              )
        ]
      ];
    }
