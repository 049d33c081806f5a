-- ===== src/System/Tests.antt =====
-- A key that is pressed before the first timer interrupt.
use implementing_os_and_syst.Base.{ℕ, ◌+◌, ◌*◌, ◌<◌, ◌≡◌, some, true, []}
use implementing_os_and_syst.Multitasking.{Task, ready}
use implementing_os_and_syst.Multitasking.Scheduler.{schedule}
use implementing_os_and_syst.Syscalls
use implementing_os_and_syst.Interrupts.Parts.{Ends}
use implementing_os_and_syst.Drivers.Keyboard
use implementing_os_and_syst.Drivers.Mouse
use implementing_os_and_syst.System.{
  System, Inputs, kernel_main, interrupt, with_manager, on_key_events, on_mouse_events,
}
use implementing_os_and_syst.System.Parts.{IsSound}
use implementing_os_and_syst.System.Steps.{
  Reach, start, next, interrupted, kernel_main-IsSound, reach_lem, tasks_stay,
}
use implementing_os_and_syst.System.Vectors.{interrupt_lem}

abbrev blank : ℕ → Task
blank i = record {
  stack = 0x10_0000 + 0x1000 * i;
  pid = 0;
  ppid = 0;
  priority = 0;
  state = ready;
  waiting_process = 0;
  cpustate = 0;
  eax_value = 0;
}

abbrev booted : System
booted = kernel_main 0x40_0000 0x8000 0x9_0000 0 (λ a. 0) blank (λ i. 0x0720) (λ i. 0)

abbrev five_pressed : Inputs
five_pressed = record { status = 0; byte = 0x06; nested = 0x7F_F000; tail = [] }

abbrev typed : System
typed = on_key_events [] (Keyboard.handle_interrupt true 0x06) booted

booted-IsSound : IsSound 1 booted
booted-IsSound =
    kernel_main-IsSound 0x40_0000 0x8000 0x9_0000 0 (λ a. 0) blank (λ i. 0x0720) (λ i. 0)

interrupt_lem_example :
    (interrupt five_pressed 0xA0 0x1000 booted
      ≡ with_manager booted (Syscalls.handle_interrupt 0x1000 0x7F_F000 booted.manager))
    × (interrupt five_pressed 0x20 0x1000 booted
        ≡ with_manager booted (schedule 0x1000 booted.manager))
    × (interrupt five_pressed 0x21 0x1000 booted ≡ some (typed, 0x1000))
    × (interrupt five_pressed 0x2C 0x1000 booted ≡ (
        let r = Mouse.handle_interrupt true 0 0x06 booted.mouse in
        some (on_mouse_events r.1 (record booted { mouse = r.0 }), 0x1000)))
interrupt_lem_example = interrupt_lem five_pressed 0x1000 booted booted-IsSound.table

typed-Reach : Reach booted typed
typed-Reach = next booted typed start (
    interrupted five_pressed 0x21 0x1000 0x1000 booted typed
      (interrupt_lem five_pressed 0x1000 booted booted-IsSound.table).2)

reach_lem_example : IsSound 1 typed × Ends (IsSound 1) (interrupt five_pressed 0x20 0x1000 typed)
reach_lem_example =
    reach_lem 0x40_0000 0x8000 0x9_0000 0 (λ a. 0) blank (λ i. 0x0720) (λ i. 0) typed five_pressed
      0x20 0x1000 typed-Reach

tasks_stay_example :
    (0 < typed.manager.num_tasks) × ((typed.manager.tasks 0).pid ≡ (booted.manager.tasks 0).pid)
tasks_stay_example =
    tasks_stay 0x40_0000 0x8000 0x9_0000 0 (λ a. 0) blank (λ i. 0x0720) (λ i. 0) booted typed 0
      start typed-Reach booted-IsSound.grown
