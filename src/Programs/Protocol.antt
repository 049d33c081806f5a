-- ===== src/Programs/Protocol.antt =====
-- The protocol of the strategies of source/src/kernel.cpp: what a parent, a child and a worker may do.
use implementing_os_and_syst.Base.{
  ℕ, zero, suc, ◌≡◌, Bool, true, false, Option, some, none, List, [], ◌∷◌, ◌==◌, if◌then◌else◌,
}
use implementing_os_and_syst.Syscalls.{
  Syscall, fork_call, double_return_call, getpid_call, exit_call, execve_call, set_priority_call,
  add_aging_call,
}
use implementing_os_and_syst.Programs.{
  Program, done, spin, act, forever, poll, Action, call, exec, load_count, store_pid, load_pid,
}

-- A parent that may fork `n` times more; behind its fork, on both sides of it; what it is told by the question that
-- follows; the same when it has stored that in `pid`; a child; what execve has made of it.
pub data Mode : Type 0 where
  parent forked : ℕ → Mode
  told stored : ℕ → ℕ → Mode
  child worker : Mode

-- A parent does not end and forks no more than it may.
abbrev pub fork_call_by : ℕ → Option Mode
fork_call_by zero = none
fork_call_by (suc n) = some (forked n)

abbrev pub parent_call : ℕ → Syscall → Option Mode
parent_call n fork_call = fork_call_by n
parent_call n double_return_call = none
parent_call n exit_call = none
parent_call n execve_call = none
parent_call n _ = some (parent n)

-- A child only sets its priority and its aging, before execve.
abbrev pub child_call : Syscall → Option Mode
child_call getpid_call = some child
child_call set_priority_call = some child
child_call add_aging_call = some child
child_call _ = none

-- A worker neither forks nor calls execve again.
abbrev pub worker_call : Syscall → Option Mode
worker_call fork_call = none
worker_call double_return_call = none
worker_call execve_call = none
worker_call _ = some worker

-- Directly behind a fork comes the question, then the store of its answer, then the test of `pid`: who is told 0 is
-- the child.
abbrev pub forked_call : ℕ → Syscall → ℕ → Option Mode
forked_call n double_return_call v = some (told n v)
forked_call n _ v = none

abbrev pub side : ℕ → ℕ → Mode
side n answer = if answer == 0 then child else parent n

abbrev pub accept : Mode → Action → ℕ → Option Mode
accept (parent n) (call c x) v = parent_call n c
accept (parent n) (exec e) v = none
accept (parent n) _ v = some (parent n)
accept (forked n) (call c x) v = forked_call n c v
accept (forked n) _ v = none
accept (told n answer) (store_pid x) v = if x == answer then some (stored n answer) else none
accept (told n answer) _ v = none
accept (stored n answer) load_pid v = some (side n answer)
accept (stored n answer) _ v = none
accept child (call c x) v = child_call c
accept child (exec e) v = some worker
accept child load_count v = some child
accept child _ v = none
accept worker (call c x) v = worker_call c
accept worker (exec e) v = none
accept worker _ v = some worker

-- The mode that a run leads to, by its actions, newest first.
unfoldable pub accepts : Mode → List (Action × ℕ) → Option Mode
accepts m [] = some m
accepts m (e ∷ t) = elim (accepts m t) [ none ↦ none | some m' ↦ accept m' e.0 e.1 ]

abbrev pub is_exec : Action → Bool
is_exec (exec e) = true
is_exec _ = false

-- What a process stored last in `pid`: an action changes it from `x`, a run from 0.
abbrev pub storing : Action → ℕ → ℕ
storing (store_pid y) x = y
storing _ x = x

abbrev pub last_stored : List (Action × ℕ) → ℕ
last_stored [] = 0
last_stored (e ∷ t) = storing e.0 (last_stored t)

-- A read of `pid` gives what the process stored there last, `x`: the other side of a fork has not stored in between.
abbrev pub OwnPid : Action → ℕ → ℕ → Type 0
OwnPid load_pid v x = v ≡ x
OwnPid _ v x = Unit

-- So does every read of a run.
abbrev pub Undisturbed : List (Action × ℕ) → Type 0
Undisturbed [] = Unit
Undisturbed (e ∷ t) = OwnPid e.0 e.1 (last_stored t) × Undisturbed t

-- The mode knows what is in `pid`.
abbrev pub Remembers : Mode → ℕ → Type 0
Remembers (stored n answer) x = x ≡ answer
Remembers _ x = Unit

-- The answer of the test is the one that the mode knows; and what follows from that.
abbrev pub Knows : Mode → Action → ℕ → Type 0
Knows (stored n answer) load_pid v = v ≡ answer
Knows _ a v = Unit

abbrev pub Given : Mode → Action → ℕ → Type 0 → Type 0
Given (stored n answer) load_pid v P = v ≡ answer → P
Given _ a v P = P

-- All actions of a program keep the mode.
abbrev pub Stays : Mode → Program → Type 0
Stays m done = Unit
Stays m spin = Unit
Stays m (act a k) = (v : ℕ) → (is_exec a ≡ false) × (accept m a v ≡ some m) × Stays m (k v)
Stays m (forever b) = Stays m b
Stays m (poll a test k) = ((v : ℕ) → accept m a v ≡ some m) × Stays m k

-- All actions of a program are accepted, whatever their answers, where the test of `pid` reads what was stored.
abbrev pub Obeys : Mode → Program → Type 0
Obeys m done = Unit
Obeys m spin = Unit
Obeys m (act a k) =
    (v : ℕ)
    → Given m a v (elim (accept m a v) [
      | none ↦ ⊥
      | some m' ↦ if is_exec a then m' ≡ worker else Obeys m' (k v)
    ])
Obeys m (forever b) = Stays m b
Obeys m (poll a test k) = ((v : ℕ) → accept m a v ≡ some m) × Obeys m k
