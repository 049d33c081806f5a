-- ===== src/Interrupts/Dispatch.antt =====
-- What the dispatch of an interrupt does around the handler.
use implementing_os_and_syst.Base.{ℕ, ◌+◌, ◌%◌, ◌≤◌, ◌<◌, ◌≡◌, ◌≢◌, ◌⊎◌, some, none, arith}
use implementing_os_and_syst.Interrupts.{
  Kernel, Handlers, acknowledge, do_handle_interrupt, master_command, slave_command, register,
  unregister,
}

module _ {S : Type 0} (k : Kernel S) (handlers : Handlers) (offset : ℕ) where
  -- The interrupts of the second controller are acknowledged to both, in that order, those of the
  -- first to the first alone, and no other interrupt to any.
  pub acknowledge_lem :
      (i : ℕ) (s : S)
      → (((i < offset) ⊎ (offset + 16 ≤ i)) × (acknowledge k handlers offset i s ≡ s))
        ⊎ (((offset ≤ i)
              × (i < offset + 8)
              × (acknowledge k handlers offset i s ≡ k.write_port master_command 0x20 s))
            ⊎ ((offset + 8 ≤ i)
                × (i < offset + 16)
                × (acknowledge k handlers offset i s
                    ≡ k.write_port slave_command 0x20 (k.write_port master_command 0x20 s))))
  unfolding acknowledge
  acknowledge_lem i s = ground arith

  -- A timer interrupt that no handler is registered for is one call of Schedule on the interrupted
  -- frame and one acknowledgement to the first controller, and nothing is printed.
  pub timer_lem :
      (esp esp' : ℕ) (s s' : S)
      → handlers offset ≡ none
      → k.schedule esp s ≡ some (s', esp')
      → do_handle_interrupt k handlers offset offset esp s
        ≡ some (k.write_port master_command 0x20 s', esp')
  unfolding do_handle_interrupt
  timer_lem esp esp' s s' h e = ground arith

  -- Any other interrupt with a handler is one call of it, on the interrupted frame, and the
  -- acknowledgement; the frame to restore is the handler's.
  pub handler_lem :
      (i h esp esp' : ℕ) (s s' : S)
      → i ≢ offset
      → handlers i ≡ some h
      → k.handle h esp s ≡ some (s', esp')
      → do_handle_interrupt k handlers offset i esp s
        ≡ some (acknowledge k handlers offset i s', esp')
  unfolding do_handle_interrupt
  handler_lem i h esp esp' s s' ne r e = ground arith

-- The destructor of a handler takes away its own registration only: where another handler has
-- registered for the number since, that one stays.
pub unregister-register :
    (this other number : ℕ) (h : Handlers) (i : ℕ)
    → ((i ≡ number % 256)
        → (unregister this number (register this number h) i ≡ none)
          × ((other ≢ this)
              → unregister this number (register other number (register this number h)) i
                ≡ some other))
      × ((i ≢ number % 256)
          → unregister this number (register other number (register this number h)) i ≡ h i)
unfolding register unregister
unregister-register this other number h i =
    (λ e. (ground arith, λ ne. ground arith), λ ne. ground arith)
