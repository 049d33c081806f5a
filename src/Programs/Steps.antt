-- ===== src/Programs/Steps.antt =====
-- The runs of a task body of source/src/kernel.cpp on its own, whatever answers it gets.
use implementing_os_and_syst.Base.{ℕ, ◌≡◌, Bool, true, false, List, [], ◌∷◌}
use implementing_os_and_syst.Programs.{Program, done, spin, act, forever, poll, Action, exec}
use implementing_os_and_syst.Programs.Workers.{body}

-- `b`, and `k` where it is done.
unfoldable pub then_do : Program → Program → Program
then_do done k = k
then_do spin k = spin
then_do (act a f) k = act a (λ v. then_do (f v) k)
then_do (forever b) k = forever b
then_do (poll a test p) k = poll a test (then_do p k)

-- Behind an action: execve does not come back, its body takes over.
abbrev pub resume : Action → Program → Program
resume (exec e) k = body e
resume _ k = k

-- One action, with its answer.
pub data Step : Program → Action → ℕ → Program → Type 0 where
  acts : (a : Action) (v : ℕ) (k : ℕ → Program) → Step (act a k) a v (resume a (k v))
  again :
      (b : Program) (a : Action) (v : ℕ) (q : Program)
      → Step (then_do b (forever b)) a v q
      → Step (forever b) a v q
  asks :
      (a : Action) (v : ℕ) (test : ℕ → Bool) (k : Program)
      → test v ≡ false
      → Step (poll a test k) a v (poll a test k)
  passes :
      (a : Action) (v : ℕ) (test : ℕ → Bool) (k : Program)
      → test v ≡ true
      → Step (poll a test k) a v k

-- A run, with its actions and their answers, newest first.
pub data Runs (p : Program) : List (Action × ℕ) → Program → Type 0 where
  begin : Runs p [] p
  then_acts :
      (t : List (Action × ℕ)) (q q' : Program) (a : Action) (v : ℕ)
      → Runs p t q
      → Step q a v q'
      → Runs p ((a, v) ∷ t) q'
