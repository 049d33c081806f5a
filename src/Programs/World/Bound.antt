-- ===== src/Programs/World/Bound.antt =====
-- How many tasks a strategy of source/src/kernel.cpp has, in all its runs.
use implementing_os_and_syst.Base.{
  ℕ, zero, suc, ◌+◌, ◌≤◌, ◌<◌, ◌≡◌, ◌≢◌, refl, sym, subst, ◌∙◌, ◌⊎◌, inl, inr, Bool, true, false,
  some, ap, ◌==◌, if◌then◌else◌, ℕ_discrete, arith,
}
use implementing_os_and_syst.Multitasking.{TaskManager}
use implementing_os_and_syst.Multitasking.Invariant.{IsValid}
use implementing_os_and_syst.Multitasking.Values.{Same}
use implementing_os_and_syst.Multitasking.Scheduler.{schedule}
use implementing_os_and_syst.Multitasking.Scheduler.Keeps.{schedule-IsValid}
use implementing_os_and_syst.Multitasking.Scheduler.Values.{schedule-EndsSame}
use implementing_os_and_syst.Syscalls.{fork_call, double_return_call}
use implementing_os_and_syst.Programs.{Program, Action, call}
use implementing_os_and_syst.Programs.Protocol.{
  Mode, parent, forked, told, stored, child, worker, accept, Obeys, Remembers, storing,
}
use implementing_os_and_syst.Programs.Obedience.{is_fork, is_return}
use implementing_os_and_syst.Programs.World.{World, next_programs, stored_at}
use implementing_os_and_syst.Programs.World.Calls.{chosen}

-- The value of the last fork of the task `i`.
abbrev pub value : TaskManager → ℕ → ℕ
value m i = (m.tasks i).eax_value

-- The two sides of a fork of the first task: a child is told 0, and the parent something else, with no more than `n`
-- forks left.
abbrev pub Sides : ℕ → TaskManager → ℕ → ℕ → ℕ → Type 0
Sides b m i n x = ((i ≢ 0) × (x ≡ 0)) ⊎ ((i ≡ 0) × (x ≢ 0) × (m.num_tasks + n ≤ b + 1))

-- The mode of the task `i`: only the first task is a parent, and it has not forked more than `b` times; behind a fork
-- the parent has a pid as its value and a child 0.
abbrev pub Fits : ℕ → TaskManager → ℕ → Mode → Type 0
Fits b m i (parent n) = (i ≡ 0) × (m.num_tasks + n ≤ b + 1)
Fits b m i (forked n) = Sides b m i n (value m i)
Fits b m i (told n answer) = Sides b m i n answer
Fits b m i (stored n answer) = Sides b m i n answer
Fits b m i child = i ≢ 0
Fits b m i worker = i ≢ 0

-- The task `i` is in a mode that fits it, knows what it has stored in `pid`, and goes on by that mode.
abbrev pub Plays : ℕ → (ℕ → ℕ) → World → ℕ → Type 0
Plays b stores w i =
    (mode : Mode) × Fits b w.manager i mode × Remembers mode (stores i) × Obeys mode (w.programs i)

pub record IsOrderly (b : ℕ) (stores : ℕ → ℕ) (w : World) : Type 0 where
  pub valid : IsValid w.manager
  pub tasks_bound : w.manager.num_tasks ≤ b + 1
  pub plays : (i : ℕ) → i < w.manager.num_tasks → Plays b stores w i

pub Fits-Same :
    (b i : ℕ) (m m' : TaskManager) (mode : Mode) → Same m m' → Fits b m i mode → Fits b m' i mode
Fits-Same b i m m' (parent n) s f = (f.0, omega (arith, f.1, s.count))
Fits-Same b i m m' (forked n) s (inl f) = inl (f.0, s.values i ∙ f.1)
Fits-Same b i m m' (forked n) s (inr f) =
    inr (f.0, λ e. f.1 (sym (s.values i) ∙ e), omega (arith, f.2, s.count))
Fits-Same b i m m' (told n x) s (inl f) = inl f
Fits-Same b i m m' (told n x) s (inr f) = inr (f.0, f.1, omega (arith, f.2, s.count))
Fits-Same b i m m' (stored n x) s (inl f) = inl f
Fits-Same b i m m' (stored n x) s (inr f) = inr (f.0, f.1, omega (arith, f.2, s.count))
Fits-Same b i m m' child s f = f
Fits-Same b i m m' worker s f = f

pub timer-IsOrderly :
    (b frame esp : ℕ) (stores : ℕ → ℕ) (w : World) (m' : TaskManager)
    → IsOrderly b stores w
    → schedule frame w.manager ≡ some (m', esp)
    → IsOrderly b stores (record w { manager = m' })
timer-IsOrderly b frame esp stores w m' o h =
    let (m1, _, e, s1) = schedule-EndsSame frame w.manager in
    let s : Same w.manager m' = subst (Same w.manager) (chosen (sym e ∙ h)).0 s1 in
    record {
      valid = schedule-IsValid frame w.manager m' esp o.valid h;
      tasks_bound = omega (arith, o.tasks_bound, s.count);
      plays = λ i l.
          let (mode, f, k, ob) = o.plays i (omega (arith, s.count)) in
          (mode, Fits-Same b i w.manager m' mode s f, k, ob);
    }

pub accept-Fits :
    (b i v : ℕ) (m : TaskManager) (a : Action) (mode mode' : Mode)
    → is_fork a ≡ false
    → is_return a ≡ false
    → accept mode a v ≡ some mode'
    → Fits b m i mode
    → Fits b m i mode'
accept-Fits b i v m a (parent n) mode' nf nr h f = ground arith
accept-Fits b i v m a (forked n) mode' nf nr h f = ground arith
accept-Fits b i v m a (told n x) mode' nf nr h (inl f) = ground arith
accept-Fits b i v m a (told n x) mode' nf nr h (inr f) = ground arith
accept-Fits b i v m a (stored n x) mode' nf nr h (inl f) = ground arith
accept-Fits b i v m a (stored n x) mode' nf nr h (inr f) = ground arith
accept-Fits b i v m a child mode' nf nr h f = ground arith
accept-Fits b i v m a worker mode' nf nr h f = ground arith

pub return-Fits :
    (b i v x : ℕ) (m : TaskManager) (mode mode' : Mode)
    → v ≡ value m i
    → accept mode (call double_return_call x) v ≡ some mode'
    → Fits b m i mode
    → Fits b m i mode'
return-Fits b i v x m (parent n) mode' e h f = ground arith
return-Fits b i v x m (forked n) mode' e h (inl f) = ground arith
return-Fits b i v x m (forked n) mode' e h (inr f) = ground arith
return-Fits b i v x m (told n y) mode' e h f = ground arith
return-Fits b i v x m (stored n y) mode' e h f = ground arith
return-Fits b i v x m child mode' e h f = ground arith
return-Fits b i v x m worker mode' e h f = ground arith

pub fork_modes :
    (v x : ℕ) (mode mode' : Mode)
    → accept mode (call fork_call x) v ≡ some mode'
    → (n : ℕ) × (mode ≡ parent (suc n)) × (mode' ≡ forked n)
fork_modes v x (parent zero) mode' h = cc
fork_modes v x (parent (suc n)) mode' h = (n, refl, cc)
fork_modes v x (forked n) mode' h = cc
fork_modes v x (told n y) mode' h = cc
fork_modes v x (stored n y) mode' h = cc
fork_modes v x child mode' h = cc
fork_modes v x worker mode' h = cc

pub next_current :
    (m m' : TaskManager) (q : Program) (p : ℕ → Program) (i : ℕ)
    → i ≡ m.current_task
    → next_programs m m' q p i ≡ q
next_current m m' q p i e = ground arith

pub next_other :
    (m m' : TaskManager) (q : Program) (p : ℕ → Program) (i : ℕ)
    → i ≢ m.current_task
    → (i ≢ m.num_tasks) ⊎ (m'.num_tasks ≡ m.num_tasks)
    → next_programs m m' q p i ≡ p i
next_other m m' q p i ne o = ground arith

pub next_child :
    (m m' : TaskManager) (q : Program) (p : ℕ → Program)
    → m.current_task < m.num_tasks
    → m.num_tasks < m'.num_tasks
    → next_programs m m' q p m.num_tasks ≡ q
next_child m m' q p c l = ground arith

itself : (c : ℕ) → (c == c) ≡ true
itself c = ground arith

other : (i c : ℕ) → i ≢ c → (i == c) ≡ false
other i c ne = ground arith

pub stored_here :
    (c i : ℕ) (a : Action) (stores : ℕ → ℕ) → i ≡ c → stored_at c a stores i ≡ storing a (stores c)
stored_here c i a stores e =
    rw e (ap (λ (t : Bool). if t then storing a (stores c) else stores c) (itself c))

pub stored_elsewhere :
    (c i : ℕ) (a : Action) (stores : ℕ → ℕ) → i ≢ c → stored_at c a stores i ≡ stores i
stored_elsewhere c i a stores ne =
    ap (λ (t : Bool). if t then storing a (stores i) else stores i) (other i c ne)

-- An action that makes no task.
pub unforked_step :
    (b : ℕ) (stores : ℕ → ℕ) (w : World) (a : Action) (q : Program) (m' : TaskManager) (mode : Mode)
    → IsOrderly b stores w
    → Same w.manager m'
    → IsValid m'
    → Fits b m' w.manager.current_task mode
    → Remembers mode (storing a (stores w.manager.current_task))
    → Obeys mode q
    → IsOrderly b
        (stored_at w.manager.current_task a stores)
        (record { manager = m'; programs = next_programs w.manager m' q w.programs })
unforked_step b stores w a q m' mode o s v f k ob =
    let c = w.manager.current_task in
    record {
      valid = v;
      tasks_bound = omega (arith, o.tasks_bound, s.count);
      plays = λ i l. elim (ℕ_discrete i c) [
        | yes e ↦ (
          mode,
          subst (λ j. Fits b m' j mode) (sym e) f,
          subst (Remembers mode) (sym (stored_here c i a stores e)) k,
          subst (Obeys mode) (sym (next_current w.manager m' q w.programs i e)) ob,
        )
        | no ne ↦
            let (mode1, f1, k1, ob1) = o.plays i (omega (arith, s.count)) in
            (
              mode1,
              Fits-Same b i w.manager m' mode1 s f1,
              subst (Remembers mode1) (sym (stored_elsewhere c i a stores ne)) k1,
              subst (Obeys mode1) (sym (next_other w.manager m' q w.programs i ne (inr s.count)))
                  ob1,
            )
      ];
    }
