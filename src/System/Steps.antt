-- ===== src/System/Steps.antt =====
-- The runs of the system of source/src/kernel.cpp: interrupts at any time, and what the tasks do between them.
use implementing_os_and_syst.Base.{ℕ, ◌<◌, ◌≡◌, sym, subst, ◌∙◌, Option, some, List, arith}
use implementing_os_and_syst.Machine.{Memory}
use implementing_os_and_syst.Multitasking.{Task, new_task, task_manager}
use implementing_os_and_syst.Multitasking.Invariant.{task_manager-IsValid, add_task-IsValid}
use implementing_os_and_syst.Multitasking.Growth.{add_task_first}
use implementing_os_and_syst.Interrupts.Parts.{Ends, do_handle_interrupt_keeps}
use implementing_os_and_syst.Kernel.Console.{IsOnScreen, printf}
use implementing_os_and_syst.Kernel.Scanf.{reset}
use implementing_os_and_syst.Kernel.Pointer.{mouse_to_console}
use implementing_os_and_syst.System.{
  System, Inputs, kernel, handlers, hardware_interrupt_offset, interrupt, kernel_main, greeting,
}
use implementing_os_and_syst.System.Parts.{IsSound, kernel-Keeps, print-IsOnScreen, with_console}

-- A step of the system: an interrupt of any number with any inputs, or what a task does by itself: it changes
-- the memory of the stacks, prints, or begins to read an integer.
pub data Step : System → System → Type 0 where
  interrupted :
      (in_ : Inputs) (number esp esp' : ℕ) (s s' : System)
      → interrupt in_ number esp s ≡ some (s', esp')
      → Step s s'
  computed :
      (mem : Memory) (s : System) → Step s (record s { manager = record s.manager { mem = mem } })
  printed_text : (cs : List ℕ) (s : System) → Step s (record s { console = printf cs s.console })
  scanning : (s : System) → Step s (record s { reader = reset })

pub data Reach (s : System) : System → Type 0 where
  start : Reach s s
  next : (s' s'' : System) → Reach s s' → Step s' s'' → Reach s s''

-- Every interrupt has a result in a sound system, which is sound again.
pub interrupt-EndsSound :
    (floor : ℕ) (in_ : Inputs) (number esp : ℕ) (s : System)
    → IsSound floor s
    → Ends (IsSound floor) (interrupt in_ number esp s)
unfolding interrupt
interrupt-EndsSound floor in_ number esp s v =
    do_handle_interrupt_keeps (kernel in_) (IsSound floor) (kernel-Keeps floor in_) handlers
      hardware_interrupt_offset number esp s v

chosen :
    {a b : System} {p q : ℕ} → ◌≡◌ {A = Option (System × ℕ)} (some (a, p)) (some (b, q)) → a ≡ b
chosen h = cc

Step-IsSound : (floor : ℕ) (s s' : System) → Step s s' → IsSound floor s → IsSound floor s'
Step-IsSound floor s s' (interrupted in_ number esp esp' _ _ e) v =
    let (s2, esp2, e2, v2) = interrupt-EndsSound floor in_ number esp s v in
    subst (IsSound floor) (chosen (sym e2 ∙ e)) v2
Step-IsSound floor s _ (computed mem _) v = record {
  grown = v.grown;
  table = record {
    bounded = v.table.bounded;
    next_is_count = v.table.next_is_count;
    numbered = v.table.numbered;
    current_in = v.table.current_in;
  };
  cursor = v.cursor;
  pointer_column = v.pointer_column;
  pointer_row = v.pointer_row;
  in_packet = v.in_packet;
}
Step-IsSound floor s _ (printed_text cs _) v =
    with_console floor s (printf cs s.console) v (print-IsOnScreen cs s.console v.cursor)
Step-IsSound floor s _ (scanning _) v = record {
  grown = v.grown;
  table = v.table;
  cursor = v.cursor;
  pointer_column = v.pointer_column;
  pointer_row = v.pointer_row;
  in_packet = v.in_packet;
}

Reach-IsSound : (floor : ℕ) (s s' : System) → Reach s s' → IsSound floor s → IsSound floor s'
Reach-IsSound floor s _ start v = v
Reach-IsSound floor s s'' (next s' _ r step) v =
    Step-IsSound floor s' s'' step (Reach-IsSound floor s s' r v)

-- kernelMain builds a sound system with one task.
pub kernel_main-IsSound :
    (forktask gdt stack eax_value : ℕ) (mem : Memory) (tasks : ℕ → Task) (video buffer : ℕ → ℕ)
    → IsSound 1 (kernel_main forktask gdt stack eax_value mem tasks video buffer)
unfolding kernel_main mouse_to_console
kernel_main-IsSound forktask gdt stack eax_value mem tasks video buffer =
    let initial = new_task stack eax_value gdt forktask mem in
    let screen = greeting (record { video = video; x = 0; y = 0 }) in
    let on : IsOnScreen screen =
      print-IsOnScreen _ _
        (print-IsOnScreen _ _ (record { column = omega arith; row = omega arith })) in
    record {
      grown = omega (arith, add_task_first initial.0 gdt initial.1 tasks);
      table =
          add_task-IsValid initial.0 (task_manager gdt initial.1 tasks)
            (task_manager-IsValid gdt initial.1 tasks);
      cursor = record { column = on.column; row = on.row };
      pointer_column = omega arith;
      pointer_row = omega arith;
      in_packet = omega arith;
    }

-- In every run from kernelMain, whatever interrupts come and whatever the tasks compute and print between them,
-- the table of tasks is valid and not empty, cursor and pointer stay on the screen, the mouse driver knows
-- its place in a packet, and every further interrupt, system calls included, has a result.
pub reach_lem :
    (forktask gdt stack eax_value : ℕ) (mem : Memory) (tasks : ℕ → Task) (video buffer : ℕ → ℕ)
    (s : System) (in_ : Inputs) (number esp : ℕ)
    → Reach (kernel_main forktask gdt stack eax_value mem tasks video buffer) s
    → IsSound 1 s × Ends (IsSound 1) (interrupt in_ number esp s)
reach_lem forktask gdt stack eax_value mem tasks video buffer s in_ number esp r =
    let v =
      Reach-IsSound 1 _ s r
        (kernel_main-IsSound forktask gdt stack eax_value mem tasks video buffer) in
    (v, interrupt-EndsSound 1 in_ number esp s v)

with_floor : (s : System) → IsSound 1 s → IsSound s.manager.num_tasks s
with_floor s v = record {
  grown = omega arith;
  table = v.table;
  cursor = v.cursor;
  pointer_column = v.pointer_column;
  pointer_row = v.pointer_row;
  in_packet = v.in_packet;
}

-- A task never leaves the table and never changes its pid: in every run, a task that is in the table at one
-- time is at the same place with the same pid at every later time.
pub tasks_stay :
    (forktask gdt stack eax_value : ℕ) (mem : Memory) (tasks : ℕ → Task) (video buffer : ℕ → ℕ)
    (s s' : System) (i : ℕ)
    → Reach (kernel_main forktask gdt stack eax_value mem tasks video buffer) s
    → Reach s s'
    → i < s.manager.num_tasks
    → (i < s'.manager.num_tasks) × ((s'.manager.tasks i).pid ≡ (s.manager.tasks i).pid)
tasks_stay forktask gdt stack eax_value mem tasks video buffer s s' i r r' h =
    let v =
      Reach-IsSound 1 _ s r
        (kernel_main-IsSound forktask gdt stack eax_value mem tasks video buffer) in
    let w = Reach-IsSound s.manager.num_tasks s s' r' (with_floor s v) in
    (
      omega (arith, w.grown),
      w.table.numbered i (omega (arith, w.grown)) ∙ sym (v.table.numbered i h),
    )
