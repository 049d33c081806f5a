-- ===== src/Drivers/Vga/Mode/Registers.antt =====
-- What the registers of the card hold after WriteRegisters of source/src/drivers/vga.cpp.
use implementing_os_and_syst.Base.{
  ℕ, ◌+◌, ◌%◌, ◌≡◌, refl, ap, ◌∙◌, Option, some, false, ltb, ℕ_discrete, List, ◌∷◌, ◌==◌,
  if◌then◌else◌, arith,
}
use implementing_os_and_syst.Ports.{and_then_lem, Device, Event, received, sent, byte, port8}
use implementing_os_and_syst.Drivers.Vga.Mode.{
  write_block, write_attributes, write_registers, unlocked, unlock_crtc,
}
use implementing_os_and_syst.Drivers.Vga.Mode.Held.{
  held, whole_block_lem, write_block-held, write_attributes_lem,
}

-- What timing register `n` shall hold: the byte that the array names for it, with the lock bit 0x80 set in
-- register 3 and cleared in register 17, and the other bits as they were.
abbrev pub timing_byte : (ℕ → ℕ) → ℕ → ℕ
timing_byte registers n =
    if n == 3
    then 128 + registers (6 + 3) % 128
    else if n == 17
    then registers (6 + 17) % 128
    else registers (6 + n) % 256

unlocked_byte :
    (registers : ℕ → ℕ) (n : ℕ) → unlocked registers (6 + n) % 256 ≡ timing_byte registers n
unlocked_byte registers n = elim (ℕ_discrete n 3) [
  | yes e ↦ rw e (omega arith)
  | no o ↦ elim (ℕ_discrete n 17) [ yes e ↦ rw e (omega arith) | no q ↦ ground arith ]
]

-- The traces between the parts of WriteRegisters.
module _ (registers : ℕ → ℕ) (d : Device) (t : List Event) where
  abbrev sequenced : Option (Unit {0}) × List Event
  sequenced =
      write_block (port8 0x3c4) (port8 0x3c5) 1 registers 5 0 d
        (sent byte 0x3c2 (registers 0 % 256) ∷ t)

  abbrev unlocking : List Event
  unlocking = (unlock_crtc d sequenced.1).1

  abbrev timed : Option (Unit {0}) × List Event
  timed = write_block (port8 0x3d4) (port8 0x3d5) 6 (unlocked registers) 25 0 d unlocking

  abbrev drawn : Option (Unit {0}) × List Event
  drawn = write_block (port8 0x3ce) (port8 0x3cf) 31 registers 9 0 d timed.1

  abbrev coloured : Option (Unit {0}) × List Event
  coloured = write_attributes registers 21 0 d drawn.1

  sequencer :
      (n : ℕ)
      → (sequenced.0 ≡ some tt)
        × (held 0x3c4 0x3c5 n sequenced.1
            ≡ (if ltb n 5 then registers (1 + n) % 256 else held 0x3c4 0x3c5 n t))
  sequencer n =
      whole_block_lem 5 0x3c4 0x3c5 1 n registers d (sent byte 0x3c2 (registers 0 % 256) ∷ t)
        (omega arith) (omega arith) refl (omega arith)

  timing :
      (n : ℕ)
      → (timed.0 ≡ some tt)
        × (held 0x3d4 0x3d5 n timed.1
            ≡ (if ltb n 25 then unlocked registers (6 + n) % 256 else held 0x3d4 0x3d5 n unlocking))
  timing n =
      whole_block_lem 25 0x3d4 0x3d5 6 n (unlocked registers) d unlocking (omega arith)
        (omega arith) refl (omega arith)

  drawing :
      (n : ℕ)
      → (drawn.0 ≡ some tt)
        × (held 0x3ce 0x3cf n drawn.1
            ≡ (if ltb n 9 then registers (31 + n) % 256 else held 0x3ce 0x3cf n timed.1))
  drawing n =
      whole_block_lem 9 0x3ce 0x3cf 31 n registers d timed.1 (omega arith) (omega arith) refl
        (omega arith)

  colouring :
      (index values n : ℕ)
      → (0x3c0 == values) ≡ false
      → (coloured.0 ≡ some tt) × (held index values n coloured.1 ≡ held index values n drawn.1)
  colouring index values n apart =
      write_attributes_lem 21 0 index values n registers d drawn.1 apart

  write_registers_parts : write_registers registers d t ≡ (
    some tt,
    sent byte 0x3c0 0x20 ∷ received byte 0x3da (d coloured.1 0x3da % 256) ∷ coloured.1,
  )
  unfolding write_registers
  write_registers_parts = rw (and_then_lem _ d sequenced tt (sequencer 0).0) (
      rw (and_then_lem _ d timed tt (timing 0).0) (
        rw (and_then_lem _ d drawn tt (drawing 0).0)
          (rw (and_then_lem _ d coloured tt (colouring 0 0 0 refl).0) refl)))

  -- WriteRegisters leaves in the registers of the sequencer, the timing and the graphics controller the bytes
  -- that the array names for them, with the lock bit of timing register 3 set and that of 17 cleared,
  -- whatever the card answers.
  pub write_registers_lem :
      (n : ℕ)
      → let r = write_registers registers d t in
        (r.0 ≡ some tt)
        × (held 0x3c4 0x3c5 n r.1
            ≡ (if ltb n 5 then registers (1 + n) % 256 else held 0x3c4 0x3c5 n t))
        × (held 0x3ce 0x3cf n r.1
            ≡ (if ltb n 9 then registers (31 + n) % 256 else held 0x3ce 0x3cf n t))
        × (held 0x3d4 0x3d5 n r.1
            ≡ (if ltb n 25 then timing_byte registers n else held 0x3d4 0x3d5 n t))
  write_registers_lem n = rw write_registers_parts (
    refl,
    (colouring 0x3c4 0x3c5 n refl).1
        ∙ write_block-held 9 0x3ce 0x3cf 0x3c4 0x3c5 31 0 n registers d timed.1 (omega arith)
            (omega arith) refl refl
        ∙ write_block-held 25 0x3d4 0x3d5 0x3c4 0x3c5 6 0 n (unlocked registers) d unlocking
            (omega arith) (omega arith) refl refl
        ∙ (sequencer n).1,
    (colouring 0x3ce 0x3cf n refl).1
        ∙ (drawing n).1
        ∙ ap (λ (v : ℕ). if ltb n 9 then registers (31 + n) % 256 else v)
            (write_block-held 25 0x3d4 0x3d5 0x3ce 0x3cf 6 0 n (unlocked registers) d unlocking
                (omega arith) (omega arith) refl refl
              ∙ write_block-held 5 0x3c4 0x3c5 0x3ce 0x3cf 1 0 n registers d
                  (sent byte 0x3c2 (registers 0 % 256) ∷ t) (omega arith) (omega arith) refl refl),
    (colouring 0x3d4 0x3d5 n refl).1
        ∙ write_block-held 9 0x3ce 0x3cf 0x3d4 0x3d5 31 0 n registers d timed.1 (omega arith)
            (omega arith) refl refl
        ∙ (timing n).1
        ∙ ground (
          arith,
          write_block-held 5 0x3c4 0x3c5 0x3d4 0x3d5 1 0 n registers d
              (sent byte 0x3c2 (registers 0 % 256) ∷ t) (omega arith) (omega arith) refl refl,
        )
        ∙ ap (λ (v : ℕ). if ltb n 25 then v else held 0x3d4 0x3d5 n t) (unlocked_byte registers n),
  )
