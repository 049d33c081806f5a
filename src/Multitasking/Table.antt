-- ===== src/Multitasking/Table.antt =====
-- The printing of the process table: printState, printProcessRow and printProcessTable.
use implementing_os_and_syst.Base.{
  ℕ, zero, suc, ◌+◌, ◌≡◌, refl, ap, ◌∙◌, List, [], ◌∷◌, ◌++◌, append_assoc, append-nil,
}
use implementing_os_and_syst.Multitasking.{
  Task, TaskManager, State, ready, running, blocked, terminated, Output, text, integer,
}

-- The default case of the switch is out of reach of the four states.
pub print_state : State → Output
print_state ready = text "Ready"
print_state running = text "Running"
print_state blocked = text "Blocked"
print_state terminated = text "Terminated"

pub print_process_row : Task → List Output
unfolding print_state
print_process_row t =
    integer t.pid
    ∷ text "       "
    ∷ integer t.ppid
    ∷ text "        "
    ∷ print_state t.state
    ∷ text "        "
    ∷ integer t.priority
    ∷ text "\n"
    ∷ []

-- The rows of the `k` tasks from index `i` on.
pub print_rows : ℕ → ℕ → (ℕ → Task) → List Output
print_rows zero i tasks = []
print_rows (suc k) i tasks = print_process_row (tasks i) ++ print_rows k (i + 1) tasks

abbrev pub table_head : List Output
table_head =
    text "\nPid     "
    ∷ text "PPid     "
    ∷ text "State     "
    ∷ text "Priority     \n"
    ∷ text "--------------------------------\n"
    ∷ []

abbrev pub table_foot : List Output
table_foot = text "--------------------------------\n" ∷ []

pub print_process_table : TaskManager → TaskManager
print_process_table m = record m {
  out = m.out ++ (table_head ++ (print_rows m.num_tasks 0 m.tasks ++ table_foot));
}

-- The numbers among what is printed.
pub numbers : List Output → List ℕ
numbers [] = []
numbers (text s ∷ os) = numbers os
numbers (integer n ∷ os) = n ∷ numbers os

-- pid, parent pid and priority of the `k` tasks from index `i` on.
pub columns : ℕ → ℕ → (ℕ → Task) → List ℕ
columns zero i tasks = []
columns (suc k) i tasks =
    (tasks i).pid ∷ (tasks i).ppid ∷ (tasks i).priority ∷ columns k (i + 1) tasks

numbers-append : (xs ys : List Output) → numbers (xs ++ ys) ≡ numbers xs ++ numbers ys
unfolding numbers
numbers-append [] ys = refl
numbers-append (text s ∷ xs) ys = numbers-append xs ys
numbers-append (integer n ∷ xs) ys = ap (◌∷◌ n) (numbers-append xs ys)

numbers-row :
    (t : Task) (os : List Output)
    → numbers (print_process_row t ++ os) ≡ t.pid ∷ t.ppid ∷ t.priority ∷ numbers os
unfolding numbers print_process_row
numbers-row t os = by_state t.state
  where
    by_state :
        (s : State)
        → t.pid
            ∷ t.ppid
            ∷ numbers (print_state s ∷ text "        " ∷ integer t.priority ∷ text "\n" ∷ os)
          ≡ t.pid ∷ t.ppid ∷ t.priority ∷ numbers os
    by_state ready = refl
    by_state running = refl
    by_state blocked = refl
    by_state terminated = refl

numbers-rows :
    (k i : ℕ) (tasks : ℕ → Task) (os : List Output)
    → numbers (print_rows k i tasks ++ os) ≡ columns k i tasks ++ numbers os
unfolding print_rows columns
numbers-rows zero i tasks os = refl
numbers-rows (suc k) i tasks os = simp (append_assoc, numbers-row, numbers-rows k (i + 1) tasks os)

-- printProcessTable prints, behind what was printed before, the pid, the parent pid and the priority
-- of each task below `numTasks` in the order of the table, and no other number.
pub numbers-print_process_table :
    (m : TaskManager)
    → numbers (print_process_table m).out ≡ numbers m.out ++ columns m.num_tasks 0 m.tasks
unfolding print_process_table
numbers-print_process_table m =
    numbers-append m.out _
    ∙ ap (◌++◌ (numbers m.out))
        (unfold numbers in numbers-rows m.num_tasks 0 m.tasks table_foot ∙ append-nil _)

-- Printing changes nothing but the output.
pub print_process_table-frame :
    (m : TaskManager)
    → ((print_process_table m).num_tasks ≡ m.num_tasks)
      × ((print_process_table m).next_pid ≡ m.next_pid)
      × ((print_process_table m).current_task ≡ m.current_task)
      × ((i : ℕ) → ((print_process_table m).tasks i).pid ≡ (m.tasks i).pid)
unfolding print_process_table
print_process_table-frame m = (refl, refl, refl, λ i. refl)

pub print_process_table_tasks : (m : TaskManager) → (print_process_table m).tasks ≡ m.tasks
unfolding print_process_table
print_process_table_tasks m = refl
