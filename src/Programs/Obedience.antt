-- ===== src/Programs/Obedience.antt =====
-- The runs of the bodies of source/src/kernel.cpp that obey their protocol.
use implementing_os_and_syst.Base.{
  ℕ, zero, suc, ◌≡◌, refl, ap, ◌∙◌, Bool, true, false, Option, some, none, List, if◌then◌else◌,
  arith, ◌+◌, ◌≤◌,
}
use implementing_os_and_syst.Syscalls.{fork_call, double_return_call}
use implementing_os_and_syst.Programs.{
  Program, done, spin, act, forever, poll, Action, call, exec, load_count, store_pid, load_pid, say,
  say_integer, say_collatz, scan, sleep, work, ending, count_up, Entry, collatz_entry,
  long_running_entry, binary_entry, linear_entry, input_entry, hello_entry, rounds,
}
use implementing_os_and_syst.Programs.Workers.{
  body, report, one_second, finished, collatztask, longrunningtask, binar_search_task,
  linear_search_task, collatztask_with_input, hello_from_execve,
}
use implementing_os_and_syst.Programs.Steps.{
  then_do, resume, Step, acts, again, asks, passes, Runs, begin, then_acts,
}
use implementing_os_and_syst.Programs.Protocol.{
  Mode, parent, forked, told, stored, child, worker, accept, accepts, is_exec, Stays, Obeys, Given,
  Knows, Remembers, OwnPid, Undisturbed, last_stored, storing,
}

given : (m : Mode) (a : Action) (v : ℕ) (P : Type 0) → P → Given m a v P
given (stored n r) load_pid v P h = λ e. h
given _ _ v P h = h

known : (m : Mode) (a : Action) (v : ℕ) (P : Type 0) → Given m a v P → Knows m a v → P
known (stored n r) load_pid v P h k = h k
known _ _ v P h k = h

pub Knows-own : (m : Mode) (a : Action) (v x : ℕ) → Remembers m x → OwnPid a v x → Knows m a v
Knows-own (stored n t) load_pid v x r o = o ∙ r
Knows-own _ _ v x r o = tt

pub Remembers-storing :
    (m m' : Mode) (a : Action) (v x : ℕ) → accept m a v ≡ some m' → Remembers m' (storing a x)
Remembers-storing m m' a v x h = ground arith

pub Stays-Obeys : (m : Mode) (b k : Program) → Stays m b → Obeys m k → Obeys m (then_do b k)
unfolding then_do
Stays-Obeys m done k s h = h
Stays-Obeys m spin k s h = tt
Stays-Obeys m (act a f) k s h =
    λ v. given m a v _ (rw ((s v).1, (s v).0) (Stays-Obeys m (f v) k (s v).2 h))
Stays-Obeys m (forever b) k s h = s
Stays-Obeys m (poll a test p) k s h = (s.0, Stays-Obeys m p k s.1 h)

pub rounds-Obeys :
    (n i : ℕ) (m : Mode) (b : ℕ → Program → Program) (k : Program)
    → ((j : ℕ) (q : Program) → Obeys m q → Obeys m (b j q))
    → Obeys m k
    → Obeys m (rounds n i b k)
unfolding rounds
rounds-Obeys zero i m b k each h = h
rounds-Obeys (suc n) i m b k each h = each i _ (rounds-Obeys n (i + 1) m b k each h)

ending-Obeys :
    (m : Mode) (o : Option ℕ) (k : ℕ → Program) → ((v : ℕ) → Obeys m (k v)) → Obeys m (ending o k)
unfolding ending
ending-Obeys m none k h = tt
ending-Obeys m (some v) k h = h v

report-Obeys :
    (name : List ℕ) (value : Option ℕ) (i : ℕ) (k : Program)
    → Obeys worker k
    → Obeys worker (report name value i k)
unfolding report
report-Obeys name value i k h = λ a b c d e f g j l n.
    ending-Obeys worker value _ (λ v o. ending-Obeys worker one_second _ (λ w p. h))

-- What stands at an entry point does what a worker may.
pub body-Obeys : (e : Entry) → Obeys worker (body e)
unfolding body collatztask longrunningtask binar_search_task linear_search_task
    collatztask_with_input hello_from_execve
body-Obeys collatz_entry = rounds-Obeys 10 0 worker _ finished (report-Obeys _ _) (λ v. tt)
body-Obeys long_running_entry = rounds-Obeys 10 0 worker _ finished (report-Obeys _ _) (λ v. tt)
body-Obeys binary_entry = rounds-Obeys 10 0 worker _ finished (report-Obeys _ _) (λ v. tt)
body-Obeys linear_entry = rounds-Obeys 10 0 worker _ finished (report-Obeys _ _) (λ v. tt)
body-Obeys input_entry = λ v. (
  refl,
  refl,
  λ v. (
    refl,
    refl,
    λ v. (
      refl,
      refl,
      λ v. (
        refl,
        refl,
        λ v. (
          refl,
          refl,
          λ v. (
            refl,
            refl,
            λ v. (
              refl,
              refl,
              λ v. (
                refl,
                refl,
                λ v. (refl, refl, λ v. (refl, refl, λ v. (refl, refl, λ v. (refl, refl, tt)))),
              ),
            ),
          ),
        ),
      ),
    ),
  ),
)
body-Obeys hello_entry = λ a b c. tt

-- The mode behind an accepted action, which the rest of the program obeys.
abbrev pub Moves : Option Mode → Program → Type 0
Moves o q = (m' : Mode) × (o ≡ some m') × Obeys m' q

obeyed :
    (a : Action) (o : Option Mode) (q : Program)
    → elim o as (λ x. Type 0) [ none ↦ ⊥ | some m' ↦ if is_exec a then m' ≡ worker else Obeys m' q ]
    → Moves o (resume a q)
obeyed a none q h = absurd h
obeyed (exec e) (some m) q h = (worker, ap some h, body-Obeys e)
obeyed (call c x) (some m) q h = (m, refl, h)
obeyed (say t) (some m) q h = (m, refl, h)
obeyed (say_integer x) (some m) q h = (m, refl, h)
obeyed (say_collatz x) (some m) q h = (m, refl, h)
obeyed scan (some m) q h = (m, refl, h)
obeyed (sleep x) (some m) q h = (m, refl, h)
obeyed (work x) (some m) q h = (m, refl, h)
obeyed load_count (some m) q h = (m, refl, h)
obeyed count_up (some m) q h = (m, refl, h)
obeyed (store_pid x) (some m) q h = (m, refl, h)
obeyed load_pid (some m) q h = (m, refl, h)

pub Step-Obeys :
    (m : Mode) (p q : Program) (a : Action) (v : ℕ)
    → Obeys m p
    → Knows m a v
    → Step p a v q
    → Moves (accept m a v) q
Step-Obeys m _ _ _ _ h w (acts a v k) = obeyed a (accept m a v) (k v) (known m a v _ (h v) w)
Step-Obeys m _ _ _ _ h w (again b a v q s) =
    Step-Obeys m (then_do b (forever b)) q a v (Stays-Obeys m b (forever b) h h) w s
Step-Obeys m _ _ _ _ h w (asks a v test k e) = (m, h.0 v, h)
Step-Obeys m _ _ _ _ h w (passes a v test k e) = (m, h.0 v, h.1)

pub Runs-Obeys :
    (m : Mode) (p : Program) (t : List (Action × ℕ)) (q : Program)
    → Obeys m p
    → Remembers m 0
    → Undisturbed t
    → Runs p t q
    → (m' : Mode) × (accepts m t ≡ some m') × Obeys m' q × Remembers m' (last_stored t)
unfolding accepts
Runs-Obeys m p _ _ h z u begin = (m, refl, h, z)
Runs-Obeys m p _ _ h z u (then_acts t q q' a v r s) =
    let (m1, e, h1, k1) = Runs-Obeys m p t q h z u.1 r in
    let (m2, e2, h2) = Step-Obeys m1 q q' a v h1 (Knows-own m1 a v (last_stored t) k1 u.0) s in
    (m2, rw e e2, h2, Remembers-storing m1 m2 a v (last_stored t) e2)

abbrev pub is_fork : Action → Bool
is_fork (call fork_call x) = true
is_fork _ = false

-- The question behind a fork.
abbrev pub is_return : Action → Bool
is_return (call double_return_call x) = true
is_return _ = false

abbrev pub left : Mode → ℕ
left (parent n) = n
left (forked n) = n
left (told n answer) = n
left (stored n answer) = n
left child = 0
left worker = 0

pub accept-left :
    (m m' : Mode) (a : Action) (v : ℕ)
    → accept m a v ≡ some m'
    → left m' + (if is_fork a then 1 else 0) ≤ left m
accept-left m m' a v h = ground arith
