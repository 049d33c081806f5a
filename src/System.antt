-- ===== src/System.antt =====
-- kernelMain of source/src/kernel.cpp: the objects that it builds, and the interrupt dispatcher over them.
pub mod Parts
pub mod Steps
pub mod Boot
pub mod Activation
pub mod Vectors
mod Tests
use implementing_os_and_syst.Base.{
  ℕ, zero, suc, ◌+◌, ◌-◌, ◌*◌, ◌%◌, ◌^◌, Option, some, none, List, [], ◌∷◌, codes, ◌==◌,
  if◌then◌else◌, true,
}
use implementing_os_and_syst.Machine.{Memory, word_mod}
use implementing_os_and_syst.Multitasking.{Task, TaskManager, task_manager, new_task, add_task}
use implementing_os_and_syst.Multitasking.Scheduler.{schedule}
use implementing_os_and_syst.Syscalls
use implementing_os_and_syst.Memory.{Headers, MemoryManager, memory_manager, malloc}
use implementing_os_and_syst.Interrupts.{Kernel, Handlers, register, do_handle_interrupt}
use implementing_os_and_syst.Kernel.Console.{Console, printf}
use implementing_os_and_syst.Kernel.Hex.{hex_text, print_mouse_up}
use implementing_os_and_syst.Kernel.Scanf.{IntegerScanf, reset, on_key_down}
use implementing_os_and_syst.Kernel.Pointer.{MouseToConsole, mouse_to_console, on_mouse_move}
use implementing_os_and_syst.Drivers.Keyboard
use implementing_os_and_syst.Drivers.Keyboard.{KeyEvent, key_down, unknown_key}
use implementing_os_and_syst.Drivers.Mouse
use implementing_os_and_syst.Drivers.Mouse.{
  MouseDriver, MouseEvent, mouse_move, mouse_up, mouse_down,
}

-- The objects of kernelMain. The screen is one: the pointer has a position of its own on it.
pub record System : Type 0 where
  pub manager : TaskManager
  pub console : Console
  pub reader : IntegerScanf
  pub mouse : MouseDriver
  pub pointer_x : ℕ
  pub pointer_y : ℕ

-- What an interrupt finds outside of the objects: the bytes that the controller gives, the frame that an
-- interrupt inside of the handler would push, and what stands in memory behind a character.
pub record Inputs : Type 0 where
  pub status : ℕ
  pub byte : ℕ
  pub nested : ℕ
  pub tail : List ℕ

-- The handlers, by a number for each, as the constructors register them.
abbrev pub syscalls_id : ℕ
syscalls_id = 0

abbrev pub keyboard_id : ℕ
keyboard_id = 1

abbrev pub mouse_id : ℕ
mouse_id = 2

abbrev pub hardware_interrupt_offset : ℕ
hardware_interrupt_offset = 0x20

abbrev pub handlers : Handlers
handlers = register mouse_id 0x2C (
    register keyboard_id 0x21 (register syscalls_id (0x80 + hardware_interrupt_offset) (λ i. none)))

-- The keyboard's handler is the reader behind scanf; a key without a character is printed.
pub on_key_event : List ℕ → KeyEvent → System → System
on_key_event tail (key_down c) s =
    let p = on_key_down tail c (s.reader, s.console) in record s { reader = p.0; console = p.1 }
on_key_event tail (unknown_key key) s = record s {
  console = printf (hex_text key) (printf (codes "KEYBOARD 0x") s.console);
}

pub on_key_events : List ℕ → List KeyEvent → System → System
on_key_events tail [] s = s
on_key_events tail (e ∷ es) s = on_key_events tail es (on_key_event tail e s)

-- The mouse's handler is the pointer of the text screen, which does not override OnMouseDown.
pub on_mouse_event : MouseEvent → System → System
on_mouse_event (mouse_move x y) s =
    let p =
      on_mouse_move x y (record { video = s.console.video; x = s.pointer_x; y = s.pointer_y }) in
    record s {
      console = record { video = p.video; x = s.console.x; y = s.console.y };
      pointer_x = p.x;
      pointer_y = p.y;
    }
on_mouse_event (mouse_up b) s = record s { console = print_mouse_up b s.console }
on_mouse_event (mouse_down b) s = s

pub on_mouse_events : List MouseEvent → System → System
on_mouse_events [] s = s
on_mouse_events (e ∷ es) s = on_mouse_events es (on_mouse_event e s)

-- The result of a call into the task manager, as one of the system.
abbrev pub with_manager : System → Option (TaskManager × ℕ) → Option (System × ℕ)
with_manager s none = none
with_manager s (some r) = some (record s { manager = r.0 }, r.1)

-- The virtual HandleInterrupt of each handler.
pub handle : Inputs → ℕ → ℕ → System → Option (System × ℕ)
handle in_ id esp s =
    if id == syscalls_id
    then with_manager s (Syscalls.handle_interrupt esp in_.nested s.manager)
    else if id == keyboard_id
    then some (on_key_events in_.tail (Keyboard.handle_interrupt true in_.byte) s, esp)
    else let r = Mouse.handle_interrupt true in_.status in_.byte s.mouse in
      some (on_mouse_events r.1 (record s { mouse = r.0 }), esp)

-- What the dispatcher calls. Its port writes do not touch the objects.
abbrev pub kernel : Inputs → Kernel System
kernel in_ = record {
  handle = handle in_;
  schedule = λ esp s. with_manager s (schedule esp s.manager);
  unhandled = λ i s. record s {
    console = printf (hex_text i) (printf (codes "UNHANDLED INTERRUPT 0x") s.console);
  };
  write_port = λ port value s. s;
}

-- An interrupt of a number, with the frame at `esp`.
pub interrupt : Inputs → ℕ → ℕ → System → Option (System × ℕ)
interrupt in_ number esp s =
    do_handle_interrupt (kernel in_) handlers hardware_interrupt_offset number esp s

-- The heap of kernelMain, with the kilobytes of memory that the boot loader reports.
abbrev pub heap_start : ℕ
heap_start = 10 * 1024 * 1024

abbrev pub kernel_heap : ℕ → Headers → MemoryManager
kernel_heap memupper h =
    memory_manager heap_start ((memupper * 1024 + 2 * word_mod - heap_start - 10 * 1024) % word_mod)
      h

-- The greeting.
abbrev pub greeting : Console → Console
greeting s =
    printf (codes "----------------------------------------------------\n")
      (printf (codes "Hello from My OS --- Hikmet Mete Varol -- 1801042608\n") s)

-- kernelMain up to the activation of the interrupts: `forktask` is the entry point of the first task, `gdt`
-- the address of the descriptor table, `stack` that of the stack of `initial`, and what the memory, the
-- table of tasks, the screen and the mouse buffer hold before are arguments.
unfoldable pub kernel_main : ℕ → ℕ → ℕ → ℕ → Memory → (ℕ → Task) → (ℕ → ℕ) → (ℕ → ℕ) → System
kernel_main forktask gdt stack eax_value mem tasks video buffer =
    let initial = new_task stack eax_value gdt forktask mem in
    let screen = greeting (record { video = video; x = 0; y = 0 }) in
    let p = mouse_to_console screen.video in
    record {
      manager = (add_task initial.0 (task_manager gdt initial.1 tasks)).2;
      console = record { video = p.video; x = screen.x; y = screen.y };
      reader = reset;
      mouse = record { offset = 0; buttons = 0; buffer = buffer };
      pointer_x = p.x;
      pointer_y = p.y;
    }
