-- ===== src/System/Vectors.antt =====
-- Which object of kernelMain in source/src/kernel.cpp an interrupt leads to.
use implementing_os_and_syst.Base.{ℕ, ◌≡◌, ◌≢◌, refl, sym, ap, ◌∙◌, some, true, arith, inl, inr}
use implementing_os_and_syst.Multitasking.Invariant.{IsValid}
use implementing_os_and_syst.Multitasking.Scheduler.{schedule}
use implementing_os_and_syst.Syscalls
use implementing_os_and_syst.Syscalls.Laws.{schedule-EndsValid, handle_interrupt-EndsValid}
use implementing_os_and_syst.Interrupts.{register, acknowledge}
use implementing_os_and_syst.Interrupts.Dispatch.{acknowledge_lem, timer_lem, handler_lem}
use implementing_os_and_syst.Drivers.Keyboard
use implementing_os_and_syst.Drivers.Mouse
use implementing_os_and_syst.System.{
  System, Inputs, with_manager, kernel, handle, handlers, hardware_interrupt_offset, interrupt,
  on_key_events, on_mouse_events,
}

acknowledged :
    (in_ : Inputs) (number : ℕ) (s : System)
    → acknowledge (kernel in_) handlers hardware_interrupt_offset number s ≡ s
acknowledged in_ number s =
    elim (acknowledge_lem (kernel in_) handlers hardware_interrupt_offset number s) [
      | inl p ↦ p.1
      | inr q ↦ elim q [ inl p ↦ p.2 | inr p ↦ p.2 ]
    ]

-- A handler that has a result: the dispatcher adds nothing to it.
through :
    (in_ : Inputs) (number id esp : ℕ) (s s' : System) (esp' : ℕ)
    → number ≢ hardware_interrupt_offset
    → handlers number ≡ some id
    → handle in_ id esp s ≡ some (s', esp')
    → interrupt in_ number esp s ≡ some (s', esp')
unfolding interrupt
through in_ number id esp s s' esp' ne r e =
    handler_lem (kernel in_) handlers hardware_interrupt_offset number id esp esp' s s' ne r e
    ∙ ap (λ (x : System). some (x, esp')) (acknowledged in_ number s')

-- The system: interrupt 0xA0, which the stub of `int $0x80` hands on, is one system call on the frame, and
-- interrupt 0x20 one Schedule; interrupt 0x21 gives the byte to the keyboard driver and interrupt 0x2C
-- to the mouse driver, and these two return to the frame that they interrupted.
pub interrupt_lem :
    (in_ : Inputs) (esp : ℕ) (s : System)
    → IsValid s.manager
    → (interrupt in_ 0xA0 esp s
        ≡ with_manager s (Syscalls.handle_interrupt esp in_.nested s.manager))
      × (interrupt in_ 0x20 esp s ≡ with_manager s (schedule esp s.manager))
      × (interrupt in_ 0x21 esp s
          ≡ some (on_key_events in_.tail (Keyboard.handle_interrupt true in_.byte) s, esp))
      × (interrupt in_ 0x2C esp s ≡ (
          let r = Mouse.handle_interrupt true in_.status in_.byte s.mouse in
          some (on_mouse_events r.1 (record s { mouse = r.0 }), esp)))
unfolding interrupt handle register
interrupt_lem in_ esp s v =
    let (m1, esp1, e1, v1) = handle_interrupt-EndsValid esp in_.nested s.manager v in
    let (m2, esp2, e2, v2) = schedule-EndsValid esp s.manager v in
    (
      through in_ 0xA0 0 esp s (record s { manager = m1 }) esp1 (λ e. ground arith) refl
            (ap (with_manager s) e1)
          ∙ sym (ap (with_manager s) e1),
      timer_lem (kernel in_) handlers hardware_interrupt_offset esp esp2 s
            (record s { manager = m2 }) refl (ap (with_manager s) e2)
          ∙ sym (ap (with_manager s) e2),
      through in_ 0x21 1 esp s _ esp (λ e. ground arith) refl refl,
      through in_ 0x2C 2 esp s _ esp (λ e. ground arith) refl refl,
    )
