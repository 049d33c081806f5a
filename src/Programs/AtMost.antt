-- ===== src/Programs/AtMost.antt =====
-- How often a body of source/src/kernel.cpp forks, on each of its paths.
use implementing_os_and_syst.Base.{
  ℕ, zero, suc, ◌+◌, ◌≤◌, ◌≡◌, refl, sym, subst, Bool, true, false, Option, none, some, List,
  if◌then◌else◌, arith, ◌==◌,
}
use implementing_os_and_syst.Programs.{
  Program, done, spin, act, forever, poll, Action, call, exec, say, say_integer, say_collatz, scan,
  sleep, work, ending, load_count, count_up, store_pid, load_pid, Entry, rounds, collatz_entry,
  long_running_entry, binary_entry, linear_entry, input_entry, hello_entry,
}
use implementing_os_and_syst.Programs.Workers.{
  body, report, one_second, finished, collatztask, longrunningtask, binar_search_task,
  linear_search_task, collatztask_with_input, hello_from_execve,
}
use implementing_os_and_syst.Programs.Forks.{
  forktask_3, forktask_4, waitpidtask_1, waitpidtask_2, execvetask_1,
}
use implementing_os_and_syst.Programs.Steps.{then_do, resume, Step, acts, again, asks, passes}
use implementing_os_and_syst.Programs.Protocol.{is_exec}
use implementing_os_and_syst.Programs.Obedience.{is_fork}

-- No action of a program is a fork or an execve.
abbrev pub Quiet : Program → Type 0
Quiet done = Unit
Quiet spin = Unit
Quiet (act a k) = (v : ℕ) → (is_fork a ≡ false) × (is_exec a ≡ false) × Quiet (k v)
Quiet (forever b) = Quiet b
Quiet (poll a test k) = (is_fork a ≡ false) × Quiet k

-- A program forks no more than `n` times, whatever the answers.
abbrev pub AtMost : ℕ → Program → Type 0
AtMost n done = Unit
AtMost n spin = Unit
AtMost n (act a k) = (v : ℕ) → elim (is_fork a) [
  | true ↦ elim n [ zero ↦ ⊥ | suc n' ↦ AtMost n' (k v) ]
  | false ↦ if is_exec a then Unit else AtMost n (k v)
]
AtMost n (forever b) = Quiet b
AtMost n (poll a test k) = (is_fork a ≡ false) × AtMost n k

Quiet-AtMost : (n : ℕ) (b k : Program) → Quiet b → AtMost n k → AtMost n (then_do b k)
unfolding then_do
Quiet-AtMost n done k s h = h
Quiet-AtMost n spin k s h = tt
Quiet-AtMost n (act a f) k s h = λ v. rw ((s v).0, (s v).1) (Quiet-AtMost n (f v) k (s v).2 h)
Quiet-AtMost n (forever b) k s h = s
Quiet-AtMost n (poll a test p) k s h = (s.0, Quiet-AtMost n p k s.1 h)

-- What remains behind an action: one fork less behind a fork, and no more than before behind another.
pub record Remains (n : ℕ) (a : Action) (q : Program) : Type 0 where
  pub left : ℕ
  pub rest : AtMost left q
  pub fewer : left + (if is_fork a then 1 else 0) ≤ n

ending-AtMost :
    (n : ℕ) (o : Option ℕ) (k : ℕ → Program) → ((v : ℕ) → AtMost n (k v)) → AtMost n (ending o k)
unfolding ending
ending-AtMost n none k h = tt
ending-AtMost n (some v) k h = h v

report_quiet :
    (name : List ℕ) (value : Option ℕ) (i : ℕ) (k : Program)
    → AtMost 0 k
    → AtMost 0 (report name value i k)
unfolding report
report_quiet name value i k h =
    λ a b c d e f g j l n. ending-AtMost 0 value _ (λ v o. ending-AtMost 0 one_second _ (λ w p. h))

rounds_quiet :
    (n i : ℕ) (b : ℕ → Program → Program) (k : Program)
    → ((j : ℕ) (q : Program) → AtMost 0 q → AtMost 0 (b j q))
    → AtMost 0 k
    → AtMost 0 (rounds n i b k)
unfolding rounds
rounds_quiet zero i b k each h = h
rounds_quiet (suc n) i b k each h = each i _ (rounds_quiet n (i + 1) b k each h)

-- What execve starts never forks.
body_quiet : (e : Entry) → AtMost 0 (body e)
unfolding body collatztask longrunningtask binar_search_task linear_search_task
    collatztask_with_input hello_from_execve
body_quiet collatz_entry = rounds_quiet 10 0 _ finished (report_quiet _ _) (λ v. tt)
body_quiet long_running_entry = rounds_quiet 10 0 _ finished (report_quiet _ _) (λ v. tt)
body_quiet binary_entry = rounds_quiet 10 0 _ finished (report_quiet _ _) (λ v. tt)
body_quiet linear_entry = rounds_quiet 10 0 _ finished (report_quiet _ _) (λ v. tt)
body_quiet input_entry = λ v. (
  refl,
  refl,
  λ v. (
    refl,
    refl,
    λ v. (
      refl,
      refl,
      λ v. (
        refl,
        refl,
        λ v. (
          refl,
          refl,
          λ v. (
            refl,
            refl,
            λ v. (
              refl,
              refl,
              λ v. (
                refl,
                refl,
                λ v. (refl, refl, λ v. (refl, refl, λ v. (refl, refl, λ v. (refl, refl, tt)))),
              ),
            ),
          ),
        ),
      ),
    ),
  ),
)
body_quiet hello_entry = λ a b c. tt

resume_fork : (a : Action) (q : Program) → is_fork a ≡ true → resume a q ≡ q
resume_fork (call c x) q t = refl
resume_fork (exec e) q t = cc
resume_fork (say x) q t = refl
resume_fork (say_integer x) q t = refl
resume_fork (say_collatz x) q t = refl
resume_fork scan q t = refl
resume_fork (sleep x) q t = refl
resume_fork (work x) q t = refl
resume_fork load_count q t = refl
resume_fork count_up q t = refl
resume_fork (store_pid x) q t = refl
resume_fork load_pid q t = refl

forked-Remains :
    (n : ℕ) (a : Action) (q : Program)
    → is_fork a ≡ true
    → elim n as (λ x. Type 0) [ zero ↦ ⊥ | suc n' ↦ AtMost n' q ]
    → Remains n a (resume a q)
forked-Remains zero a q t h = absurd h
forked-Remains (suc n) a q t h = record {
  left = n;
  rest = subst (AtMost n) (sym (resume_fork a q t)) h;
  fewer = ground (arith, t);
}

same_left : (n : ℕ) (a : Action) (q : Program) → is_fork a ≡ false → AtMost n q → Remains n a q
same_left n a q t h = record { left = n; rest = h; fewer = ground (arith, t) }

other-Remains :
    (n : ℕ) (a : Action) (q : Program)
    → is_fork a ≡ false
    → (if is_exec a then Unit else AtMost n q)
    → Remains n a (resume a q)
other-Remains n (exec e) q t h = record { left = 0; rest = body_quiet e; fewer = omega arith }
other-Remains n (call c x) q t h = same_left n (call c x) q t h
other-Remains n (say x) q t h = same_left n (say x) q t h
other-Remains n (say_integer x) q t h = same_left n (say_integer x) q t h
other-Remains n (say_collatz x) q t h = same_left n (say_collatz x) q t h
other-Remains n scan q t h = same_left n scan q t h
other-Remains n (sleep x) q t h = same_left n (sleep x) q t h
other-Remains n (work x) q t h = same_left n (work x) q t h
other-Remains n load_count q t h = same_left n load_count q t h
other-Remains n count_up q t h = same_left n count_up q t h
other-Remains n (store_pid x) q t h = same_left n (store_pid x) q t h
other-Remains n load_pid q t h = same_left n load_pid q t h

acted-Remains :
    (n : ℕ) (a : Action) (q : Program) (b : Bool)
    → is_fork a ≡ b
    → elim b as (λ x. Type 0) [
      | true ↦ elim n as (λ x. Type 0) [ zero ↦ ⊥ | suc n' ↦ AtMost n' q ]
      | false ↦ if is_exec a then Unit else AtMost n q
    ]
    → Remains n a (resume a q)
acted-Remains n a q true e h = forked-Remains n a q e h
acted-Remains n a q false e h = other-Remains n a q e h

pub Step-AtMost :
    (n : ℕ) (p q : Program) (a : Action) (v : ℕ) → AtMost n p → Step p a v q → Remains n a q
Step-AtMost n _ _ _ _ h (acts a v k) = acted-Remains n a (k v) (is_fork a) refl (h v)
Step-AtMost n _ _ _ _ h (again b a v q s) =
    Step-AtMost n (then_do b (forever b)) q a v (Quiet-AtMost n b (forever b) h h) s
Step-AtMost n _ _ _ _ h (asks a v test k e) = record {
  left = n;
  rest = h;
  fewer = ground (arith, h.0);
}
Step-AtMost n _ _ _ _ h (passes a v test k e) = record {
  left = n;
  rest = h.1;
  fewer = ground (arith, h.0);
}

-- The tests of fork, waitpid and execve.
pub data Test : Type 0 where
  fork_3 fork_4 waitpid_1 waitpid_2 execve_1 : Test

abbrev pub test_program : Test → Program
test_program fork_3 = forktask_3
test_program fork_4 = forktask_4
test_program waitpid_1 = waitpidtask_1
test_program waitpid_2 = waitpidtask_2
test_program execve_1 = execvetask_1

-- The forks on each path of a test.
abbrev pub depth : Test → ℕ
depth fork_3 = 1
depth fork_4 = 3
depth waitpid_1 = 1
depth waitpid_2 = 3
depth execve_1 = 1

-- Both branches behind the question for the pid.
branches :
    (n : ℕ) (p q : Program) (b : Bool) → AtMost n p → AtMost n q → AtMost n (if b then p else q)
branches n p q true h k = h
branches n p q false h k = k

pub test-AtMost : (t : Test) → AtMost (depth t) (test_program t)
unfolding forktask_3 forktask_4 waitpidtask_1 waitpidtask_2 execvetask_1
test-AtMost fork_3 = λ a b t s pid. branches 0 _ _ (pid == 0) (λ c d e f. tt) (λ c d e f. tt)
test-AtMost fork_4 =
    λ a b c d e t s pid. branches 0 _ _ (pid == 0) (λ f l g h i j k. tt) (λ f l g h i j k. tt)
test-AtMost waitpid_1 = λ a t s pid. branches 0 _ _ (pid == 0) (λ c d e f g h i. tt) (λ c l d. tt)
test-AtMost waitpid_2 =
    λ a b c d t s pid. branches 0 _ _ (pid == 0) (λ e f g h i. tt) (λ l e f g h i. tt)
test-AtMost execve_1 = λ a b t s pid. branches 0 _ _ (pid == 0) (λ c. tt) (λ c d e. tt)
