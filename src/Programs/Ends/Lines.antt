-- ===== src/Programs/Ends/Lines.antt =====
-- What the workers of source/src/kernel.cpp print, and that each of their loops ends.
use implementing_os_and_syst.Base.{
  ℕ, zero, suc, ◌+◌, ◌*◌, ◌^◌, ◌≡◌, refl, sym, subst, ap, false, Option, some, List, [], ◌∷◌, ◌++◌,
  codes, arith,
}
use implementing_os_and_syst.Kernel.Integers.{int_to_string}
use implementing_os_and_syst.Kernel.Sleep.{sleep_ends}
use implementing_os_and_syst.Kernel.Collatz.{calculate_collatz, collatz_next}
use implementing_os_and_syst.Kernel.Products.{long_running_program, long_running_program_lem}
use implementing_os_and_syst.Kernel.Search.{binary_search, binary_loop, linear_search, linear_loop}
use implementing_os_and_syst.Machine.{minus_one}
use implementing_os_and_syst.Syscalls.{getpid_call, get_priority_call}
use implementing_os_and_syst.Programs.{
  Program, done, act, Action, call, say, say_integer, sleep, work, ending, Entry, collatz_entry,
  long_running_entry, binary_entry, linear_entry, rounds,
}
use implementing_os_and_syst.Programs.Workers.{
  body, report, one_second, as_int, sorted_array, unsorted_array, finished, collatztask,
  longrunningtask, binar_search_task, linear_search_task,
}
use implementing_os_and_syst.Programs.Protocol.{is_exec}

pub data Worker : Type 0 where
  collatz long_running binary linear : Worker

abbrev pub entry_of : Worker → Entry
entry_of collatz = collatz_entry
entry_of long_running = long_running_entry
entry_of binary = binary_entry
entry_of linear = linear_entry

abbrev pub name_of : Worker → List ℕ
name_of collatz = codes "collatz_task(100) running for "
name_of long_running = codes "long_running_task(1000) running for "
name_of binary = codes "binar_search_task(arr) running for "
name_of linear = codes "linear_search_task(arr) running for "

-- What each computation comes to: the end of the Collatz sequence, the sum of the products, the place of 110 in the
-- sorted array, and -1 for 175, which is not in the other one.
abbrev pub result_of : Worker → ℕ
result_of collatz = 1
result_of long_running = 249_500_250_000
result_of binary = 7
result_of linear = minus_one

-- What a worker shows: a text that it prints, and the result of a computation.
pub data Shown : Type 0 where
  text : List ℕ → Shown
  result : ℕ → Shown

-- A line of a worker with its result, and what follows it; then `k` lines, from round `i` on.
abbrev pub line : List ℕ → ℕ → ℕ → ℕ → ℕ → List Shown → List Shown
line name value pid priority i rest =
    text name
    ∷ text (int_to_string (i + 1) 20)
    ∷ text (codes "/10 times")
    ∷ text (codes " PID = ")
    ∷ text (int_to_string pid 20)
    ∷ text (codes " Priority = ")
    ∷ text (int_to_string priority 20)
    ∷ text (codes "\n")
    ∷ result value
    ∷ rest

abbrev pub lines : List ℕ → ℕ → ℕ → ℕ → ℕ → ℕ → List Shown
lines name value pid priority zero i = []
lines name value pid priority (suc k) i =
    line name value pid priority i (lines name value pid priority k (i + 1))

-- What an action of a worker shows, and what a run has shown.
abbrev pub shown_by : Action → List Shown
shown_by (say t) = text t ∷ []
shown_by (say_integer n) = text (int_to_string n 20) ∷ []
shown_by (work v) = result v ∷ []
shown_by _ = []

abbrev pub shown_in : List (Action × ℕ) → List Shown
shown_in [] = []
shown_in (e ∷ t) = shown_in t ++ shown_by e.0

collatz_ends : calculate_collatz 25 100 ≡ some 1
unfolding calculate_collatz collatz_next
collatz_ends = refl

products_are : ◌≡◌ {A = Option ℕ} (some (long_running_program 1000)) (some 249_500_250_000)
products_are = ap (λ (n : ℕ). some n) (long_running_program_lem 1000 (omega arith))

binary_finds :
    ◌≡◌ {A = Option ℕ} (some (as_int (binary_search sorted_array 10 (110 + 2 ^ 31)))) (some 7)
unfolding binary_search binary_loop
binary_finds = refl

linear_finds :
    ◌≡◌ {A = Option ℕ}
      (some (as_int (linear_search unsorted_array 10 (175 + 2 ^ 31))))
      (some minus_one)
unfolding linear_search linear_loop
linear_finds = refl

module _ (pid priority : ℕ) where
  -- The answers of the kernel to a task with that pid and that priority.
  abbrev pub Answered : Action → ℕ → Type 0
  Answered (call getpid_call x) v = v ≡ pid
  Answered (call get_priority_call x) v = v ≡ priority
  Answered _ v = Unit

  abbrev pub AllAnswered : List (Action × ℕ) → Type 0
  AllAnswered [] = Unit
  AllAnswered (e ∷ t) = Answered e.0 e.1 × AllAnswered t

  -- A program ends behind `n` actions, and has shown `content` by then.
  pub data Prints : ℕ → List Shown → Program → Type 0 where
    ends : Prints 0 [] done
    shows :
        (n : ℕ) (rest : List Shown) (a : Action) (k : ℕ → Program)
        → is_exec a ≡ false
        → ((v : ℕ) → Answered a v → Prints n rest (k v))
        → Prints (suc n) (shown_by a ++ rest) (act a k)

  plainly :
      {n : ℕ} {rest : List Shown} {a : Action} {k : Program}
      → is_exec a ≡ false
      → Prints n rest k
      → Prints (suc n) (shown_by a ++ rest) (act a (λ v. k))
  plainly e h = shows _ _ _ _ e (λ v g. h)

  told_pid :
      (n : ℕ) (rest : List Shown) (k : ℕ → Program)
      → Prints n rest (k pid)
      → Prints (suc n) rest (act (call getpid_call 0) k)
  told_pid n rest k h =
      shows n rest (call getpid_call 0) k refl (λ v g. subst (λ y. Prints n rest (k y)) (sym g) h)

  told_priority :
      (n : ℕ) (rest : List Shown) (k : ℕ → Program)
      → Prints n rest (k priority)
      → Prints (suc n) rest (act (call get_priority_call 0) k)
  told_priority n rest k h =
      shows n rest (call get_priority_call 0) k refl
        (λ v g. subst (λ y. Prints n rest (k y)) (sym g) h)

  paused :
      (n : ℕ) (rest : List Shown) (k : Program)
      → Prints n rest k
      → Prints (suc n) rest (ending one_second (λ w. act (sleep 1) (λ v. k)))
  unfolding ending
  paused n rest k h =
      subst (λ o. Prints (suc n) rest (ending o (λ w. act (sleep 1) (λ v. k))))
        (sym (sleep_ends 1 (omega arith))) (plainly refl h)

  report-Prints :
      (name : List ℕ) (value : Option ℕ) (r i n : ℕ) (rest : List Shown) (k : Program)
      → value ≡ some r
      → Prints n rest k
      → Prints (n + 12) (line name r pid priority i rest) (report name value i k)
  unfolding report ending
  report-Prints name value r i n rest k e h =
      let twelve : suc (suc (suc (suc (suc (suc (suc (suc (suc (suc (suc (suc n)))))))))))
          ≡ n + 12 =
        omega arith in
      subst (λ o. Prints (n + 12) (line name r pid priority i rest) (report name o i k)) (sym e)
        (subst (λ x. Prints x (line name r pid priority i rest) (report name (some r) i k)) twelve
          (plainly refl (
            plainly refl (
              plainly refl (
                plainly refl (
                  told_pid _ _ _ (
                    plainly refl (
                      plainly refl (
                        told_priority _ _ _
                          (plainly refl (plainly refl (plainly refl (paused n rest k h)))))))))))))

  worker-Prints :
      (name : List ℕ) (value : Option ℕ) (r k i : ℕ)
      → value ≡ some r
      → Prints
          (k * 12 + 1)
          (lines name r pid priority k i)
          (rounds k i (report name value) finished)
  unfolding rounds
  worker-Prints name value r zero i e = plainly refl ends
  worker-Prints name value r (suc k) i e =
      subst
        (λ x.
          Prints x (lines name r pid priority (suc k) i)
            (rounds (suc k) i (report name value) finished))
        (omega arith)
        (report-Prints name value r i _ _ _ e (worker-Prints name value r k (i + 1) e))

  pub body-Prints :
      (w : Worker)
      → Prints 121 (lines (name_of w) (result_of w) pid priority 10 0) (body (entry_of w))
  unfolding body collatztask longrunningtask binar_search_task linear_search_task
  body-Prints collatz = worker-Prints _ _ 1 10 0 collatz_ends
  body-Prints long_running = worker-Prints _ _ 249_500_250_000 10 0 products_are
  body-Prints binary = worker-Prints _ _ 7 10 0 binary_finds
  body-Prints linear = worker-Prints _ _ minus_one 10 0 linear_finds
