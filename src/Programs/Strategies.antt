-- ===== src/Programs/Strategies.antt =====
-- The strategies of source/src/kernel.cpp obey the protocol of parents, children and workers.
use implementing_os_and_syst.Base.{
  ℕ, zero, suc, ◌+◌, ◌≤◌, ◌≡◌, refl, Bool, true, false, sym, subst, ap, Option, some, none, List,
  [], ◌∷◌, ◌==◌, if◌then◌else◌, arith,
}
use implementing_os_and_syst.Programs.{
  Program, Action, Entry, rounds, collatz_entry, long_running_entry, binary_entry, linear_entry,
}
use implementing_os_and_syst.Programs.Launchers.{
  spawn, becomes, watch, awaited, becomes_at, becomes_when_all, part_a_strategy,
  part_a_strategy_waitpid, part_b_first_strategy, part_b_second_strategy, part_b_third_strategy,
  part_b_dynamic_strategy, partb, part_c_first_strategy,
}
use implementing_os_and_syst.Programs.Steps.{Runs}
use implementing_os_and_syst.Programs.Protocol.{
  Mode, parent, child, side, accept, accepts, Obeys, Undisturbed,
}
use implementing_os_and_syst.Programs.Obedience.{Runs-Obeys, is_fork, left, accept-left}

pub data Strategy : Type 0 where
  a_first a_waitpid b_first b_second b_third b_dynamic b_plain c_first : Strategy

abbrev pub program : Strategy → Program
program a_first = part_a_strategy
program a_waitpid = part_a_strategy_waitpid
program b_first = part_b_first_strategy
program b_second = part_b_second_strategy
program b_third = part_b_third_strategy
program b_dynamic = part_b_dynamic_strategy
program b_plain = partb
program c_first = part_c_first_strategy

-- The children of a strategy.
abbrev pub children : Strategy → ℕ
children a_first = 6
children a_waitpid = 6
children b_first = 10
children b_second = 6
children b_third = 4
children b_dynamic = 4
children b_plain = 3
children c_first = 3

equals_itself : (x : ℕ) → (x == x) ≡ true
equals_itself x = ground arith

-- Behind the test.
answered :
    (n : ℕ) (c k : Program) (b : Bool)
    → Obeys child c
    → Obeys (parent n) k
    → Obeys (if b then child else parent n) (if b then c else k)
answered n c k true hc hk = hc
answered n c k false hc hk = hk

-- The test of `pid`, when it reads what was stored.
tested :
    (n answer : ℕ) (c k : Program)
    → Obeys child c
    → Obeys (parent n) k
    → (v : ℕ) → v ≡ answer
    → Obeys (side n answer) (if v == 0 then c else k)
tested n answer c k hc hk v e =
    subst (λ x. Obeys (side n answer) (if x == 0 then c else k)) (sym e)
      (answered n c k (answer == 0) hc hk)

spawn-Obeys :
    (n : ℕ) (c k : Program)
    → Obeys child c
    → Obeys (parent n) k
    → Obeys (parent (suc n)) (spawn c k)
spawn-Obeys n c k hc hk = λ v answer w. rw (equals_itself answer) (tested n answer c k hc hk)

-- `m` rounds of a loop that forks once in each.
loop-Obeys :
    (m i n : ℕ) (b : ℕ → Program → Program) (k : Program)
    → ((j l : ℕ) (q : Program) → Obeys (parent l) q → Obeys (parent (suc l)) (b j q))
    → Obeys (parent n) k
    → Obeys (parent (m + n)) (rounds m i b k)
unfolding rounds
loop-Obeys zero i n b k each h = subst (λ x. Obeys (parent x) k) (omega arith) h
loop-Obeys (suc m) i n b k each h =
    subst (λ x. Obeys (parent x) (b i (rounds m (i + 1) b k))) (omega arith)
      (each i (m + n) _ (loop-Obeys m (i + 1) n b k each h))

becomes-Obeys : (e : Entry) → Obeys child (becomes e)
becomes-Obeys e = λ v. refl

becomes_at-Obeys : (p : ℕ) (e : Entry) → Obeys child (becomes_at p e)
becomes_at-Obeys p e = λ v w. refl

becomes_when_all-Obeys : (p : ℕ) (e : Entry) → Obeys child (becomes_when_all p e)
becomes_when_all-Obeys p e = λ v. (λ w. refl, becomes-Obeys e)

watch-Obeys : (n : ℕ) (text : List ℕ) → Obeys (parent n) (watch text)
unfolding watch
watch-Obeys n text = λ a. (refl, refl, λ b. (refl, refl, λ c. (refl, refl, tt)))

worker_loop-Obeys :
    (e : Entry) (m n : ℕ) (k : Program)
    → Obeys (parent n) k
    → Obeys (parent (m + n)) (rounds m 0 (λ i q. spawn (becomes e) q) k)
worker_loop-Obeys e m n k h =
    loop-Obeys m 0 n _ k (λ j l q g. spawn-Obeys l (becomes e) _ (becomes-Obeys e) g) h

awaited-Obeys :
    (e : Entry) (j l : ℕ) (q : Program)
    → Obeys (parent l) q
    → Obeys (parent (suc l)) (awaited e j q)
awaited-Obeys e j l q g = spawn-Obeys l _ _ (λ v. refl) (λ pid v. g)

-- Every strategy obeys the protocol of a parent with its number of children.
pub strategy-Obeys : (s : Strategy) → Obeys (parent (children s)) (program s)
unfolding part_a_strategy part_a_strategy_waitpid part_b_first_strategy part_b_second_strategy
    part_b_third_strategy part_b_dynamic_strategy partb part_c_first_strategy
strategy-Obeys a_first = λ v.
    worker_loop-Obeys collatz_entry 3 3 _
      (worker_loop-Obeys long_running_entry 3 0 _ (watch-Obeys 0 _))
strategy-Obeys a_waitpid = λ v.
    loop-Obeys 3 0 3 _ _ (awaited-Obeys collatz_entry)
      (loop-Obeys 3 0 0 _ _ (awaited-Obeys long_running_entry) (λ a b c. tt))
strategy-Obeys b_first = λ v. worker_loop-Obeys collatz_entry 10 0 _ (watch-Obeys 0 _)
strategy-Obeys b_second = λ v.
    worker_loop-Obeys binary_entry 3 3 _ (worker_loop-Obeys linear_entry 3 0 _ (watch-Obeys 0 _))
strategy-Obeys b_third = λ v w. spawn-Obeys 3 _ _ (becomes_at-Obeys 5 collatz_entry) (
  λ x. refl,
  spawn-Obeys 2 _ _ (becomes_at-Obeys 5 binary_entry) (
      spawn-Obeys 1 _ _ (becomes_at-Obeys 5 linear_entry)
        (spawn-Obeys 0 _ _ (becomes_at-Obeys 5 long_running_entry) (λ x. watch-Obeys 0 _))),
)
strategy-Obeys b_dynamic = λ v w.
    spawn-Obeys 3 _ _ (λ x y. becomes_when_all-Obeys 5 collatz_entry)
      (λ x. spawn-Obeys 2 _ _ (becomes_when_all-Obeys 4 binary_entry) (λ x.
        spawn-Obeys 1 _ _ (becomes_when_all-Obeys 2 linear_entry) (λ x.
          spawn-Obeys 0 _ _ (becomes_when_all-Obeys 3 long_running_entry) (λ x. watch-Obeys 0 _))))
strategy-Obeys b_plain = λ v w. spawn-Obeys 2 _ _ (becomes_at-Obeys 5 collatz_entry) (
    spawn-Obeys 1 _ _ (becomes_at-Obeys 1 collatz_entry) (
      spawn-Obeys 0 _ _ (becomes_at-Obeys 3 collatz_entry)
        (λ a. (refl, refl, λ b. (refl, refl, tt)))))
strategy-Obeys c_first = λ v. loop-Obeys 3 0 0 _ _ (λ j l q g. spawn-Obeys l _ _ (λ x. refl) g) tt

-- The forks of a run.
pub forks : List (Action × ℕ) → ℕ
forks [] = 0
forks (e ∷ t) = (if is_fork e.0 then 1 else 0) + forks t

same : {a b : Mode} → ◌≡◌ {A = Option Mode} (some a) (some b) → a ≡ b
same h = cc

before :
    (o : Option Mode) (m' : Mode) (a : Action) (v : ℕ)
    → elim o as (λ x. Option Mode) [ none ↦ none | some m1 ↦ accept m1 a v ] ≡ some m'
    → (m1 : Mode) × (o ≡ some m1) × (accept m1 a v ≡ some m')
before none m' a v h = cc
before (some m1) m' a v h = (m1, refl, h)

accepts-forks :
    (m m' : Mode) (t : List (Action × ℕ)) → accepts m t ≡ some m' → left m' + forks t ≤ left m
unfolding accepts forks
accepts-forks m m' [] h = ground (arith, ap left (same h))
accepts-forks m m' (e ∷ t) h =
    let (m1, e1, e2) = before (accepts m t) m' e.0 e.1 h in
    omega (arith, accepts-forks m m1 t e1, accept-left m1 m' e.0 e.1 e2)

-- In every run of a strategy that is undisturbed, so that each test of `pid` reads what the process itself stored
-- there last, and whatever its calls answer: its process forks no more than it has children; each fork is directly
-- followed by the question whether this is the child, that by the store of the answer, and that by the test, behind
-- which the process that was told 0 is a child and every other one a parent; a child makes no fork and no call but
-- those that set its priority and its aging until execve, and what execve starts neither forks nor calls execve.
pub strategies_obey :
    (s : Strategy) (t : List (Action × ℕ)) (q : Program)
    → Runs (program s) t q
    → Undisturbed t
    → ((m : Mode) × (accepts (parent (children s)) t ≡ some m)) × (forks t ≤ children s)
strategies_obey s t q r u =
    let (m, e, _, _) = Runs-Obeys (parent (children s)) (program s) t q (strategy-Obeys s) tt u r in
    ((m, e), omega (arith, accepts-forks (parent (children s)) m t e))
