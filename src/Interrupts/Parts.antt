-- ===== src/Interrupts/Parts.antt =====
-- What the dispatch of an interrupt keeps, when the parts of the kernel that it calls keep it.
use implementing_os_and_syst.Base.{
  ℕ, ◌+◌, ◌≡◌, refl, Bool, true, false, Option, some, inl, inr, ◌==◌, leb, ltb, ◌&&◌, if◌then◌else◌,
  Option-cases,
}
use implementing_os_and_syst.Interrupts.{
  Kernel, Handlers, acknowledge, run_handler, run_schedule, do_handle_interrupt, master_command,
  slave_command,
}

if_keeps : {S : Type 0} (P : S → Type 0) (b : Bool) (x y : S) → P x → P y → P (if b then x else y)
if_keeps P true x y p q = p
if_keeps P false x y p q = q

-- A step that has a result, in which `P` holds.
abbrev pub Ends : {S : Type 0} → (S → Type 0) → Option (S × ℕ) → Type 0
Ends {S} P r = (s : S) × (esp : ℕ) × (r ≡ some (s, esp)) × P s

module _ {S : Type 0} (k : Kernel S) (P : S → Type 0) where
  -- The parts of the kernel end and keep `P`.
  pub record Keeps : Type 0 where
    pub handle_keeps : (h esp : ℕ) (s : S) → P s → Ends P (k.handle h esp s)
    pub schedule_keeps : (esp : ℕ) (s : S) → P s → Ends P (k.schedule esp s)
    pub unhandled_keeps : (i : ℕ) (s : S) → P s → P (k.unhandled i s)
    pub write_port_keeps : (port value : ℕ) (s : S) → P s → P (k.write_port port value s)

  module _ (keeps : Keeps) (handlers : Handlers) (offset : ℕ) where
    acknowledge_keeps : (i : ℕ) (s : S) → P s → P (acknowledge k handlers offset i s)
    unfolding acknowledge
    acknowledge_keeps i s p =
        let s1 = k.write_port master_command 0x20 s in
        let p1 = keeps.write_port_keeps master_command 0x20 s p in
        let s2 = k.write_port slave_command 0x20 s1 in
        if_keeps P (leb offset i && ltb i (offset + 16)) (if leb (offset + 8) i then s2 else s1) s
          (if_keeps P (leb (offset + 8) i) s2 s1 (keeps.write_port_keeps slave_command 0x20 s1 p1)
            p1)
          p

    run_handler_keeps : (i esp : ℕ) (s : S) → P s → Ends P (run_handler k handlers offset i esp s)
    unfolding run_handler
    run_handler_keeps i esp s p = elim (Option-cases (handlers i)) [
      | inl e ↦
          rw (e, run_handler)
            (
              _,
              esp,
              refl,
              if_keeps P (i == offset) s (k.unhandled i s) p (keeps.unhandled_keeps i s p),
            )
      | inr (h, e) ↦ rw (e, run_handler) (keeps.handle_keeps h esp s p)
    ]

    run_schedule_keeps : (i esp : ℕ) (s : S) → P s → Ends P (run_schedule k handlers offset i esp s)
    unfolding run_schedule
    run_schedule_keeps i esp s p =
        if_keeps (Ends P) (i == offset) (k.schedule esp s) (some (s, esp))
          (keeps.schedule_keeps esp s p) (s, esp, refl, p)

    pub do_handle_interrupt_keeps :
        (i esp : ℕ) (s : S) → P s → Ends P (do_handle_interrupt k handlers offset i esp s)
    unfolding do_handle_interrupt
    do_handle_interrupt_keeps i esp s p =
        let (s1, esp1, e1, p1) = run_handler_keeps i esp s p in
        let (s2, esp2, e2, p2) = run_schedule_keeps i esp1 s1 p1 in
        rw (e1, do_handle_interrupt)
          (rw (e2, do_handle_interrupt)
            (acknowledge k handlers offset i s2, esp2, refl, acknowledge_keeps i s2 p2))
