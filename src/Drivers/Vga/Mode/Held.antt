-- ===== src/Drivers/Vga/Mode/Held.antt =====
-- The loops of WriteRegisters of source/src/drivers/vga.cpp on the registers of the card: a data port leads to the
-- register that its index port names.
use implementing_os_and_syst.Base.{
  ℕ, zero, suc, ◌+◌, ◌%◌, ◌^◌, ◌≤◌, ◌<◌, ◌≡◌, refl, ◌∙◌, some, false, ◌&&◌, ltb, leb, List, [], ◌∷◌,
  get_or, ◌==◌, if◌then◌else◌, arith,
}
use implementing_os_and_syst.Ports.{Device, Event, received, sent, printed, byte, port8}
use implementing_os_and_syst.Ports.Trace.{sent_to}
use implementing_os_and_syst.Drivers.Vga.Mode.{write_block, write_attributes}

-- The value that was sent last to a data port while its index was `k`.
abbrev pub held : ℕ → ℕ → ℕ → List Event → ℕ
held index values k [] = 0
held index values k (received w q v ∷ t) = held index values k t
held index values k (printed text ∷ t) = held index values k t
held index values k (sent w q v ∷ t) =
    if (q == values) && (get_or (sent_to index t) 0 0 == k) then v else held index values k t

-- A block leaves in its registers what the array names, and the other registers alone.
write_block_lem :
    (k : ℕ) (index values first i n : ℕ) (registers : ℕ → ℕ) (d : Device) (t : List Event)
    → index < 2 ^ 16
    → values < 2 ^ 16
    → (index == values) ≡ false
    → i + k ≤ 256
    → let r = write_block (port8 index) (port8 values) first registers k i d t in
      (r.0 ≡ some tt)
      × (held index values n r.1 ≡ (
          if leb i n && ltb n (i + k) then registers (first + n) % 256 else held index values n t))
unfolding write_block
write_block_lem zero index values first i n registers d t p q apart room = (refl, ground arith)
write_block_lem (suc k) index values first i n registers d t p q apart room =
    let u =
      sent byte (values % 65536) (registers (first + i) % 256)
      ∷ sent byte (index % 65536) (i % 256)
      ∷ t in
    let r = write_block_lem k index values first (i + 1) n registers d u p q apart (omega arith) in
    (r.0, r.1 ∙ ground arith)

-- A block of other ports leaves the registers alone.
pub write_block-held :
    (k : ℕ) (index values other others first i n : ℕ) (registers : ℕ → ℕ) (d : Device)
    (t : List Event)
    → index < 2 ^ 16
    → values < 2 ^ 16
    → (index == others) ≡ false
    → (values == others) ≡ false
    → let r = write_block (port8 index) (port8 values) first registers k i d t in
      held other others n r.1 ≡ held other others n t
unfolding write_block
write_block-held zero index values other others first i n registers d t p q a b = refl
write_block-held (suc k) index values other others first i n registers d t p q a b =
    write_block-held k index values other others first (i + 1) n registers d
      (sent byte (values % 65536) (registers (first + i) % 256)
        ∷ sent byte (index % 65536) (i % 256)
        ∷ t)
      p q a b
    ∙ ground arith

-- The attribute controller has ports of its own.
pub write_attributes_lem :
    (k i index values n : ℕ) (registers : ℕ → ℕ) (d : Device) (t : List Event)
    → (0x3c0 == values) ≡ false
    → let r = write_attributes registers k i d t in
      (r.0 ≡ some tt) × (held index values n r.1 ≡ held index values n t)
unfolding write_attributes
write_attributes_lem zero i index values n registers d t apart = (refl, refl)
write_attributes_lem (suc k) i index values n registers d t apart =
    let p =
      write_attributes_lem k (i + 1) index values n registers d
        (sent byte 0x3c0 (registers (40 + i) % 256)
          ∷ sent byte 0x3c0 (i % 256)
          ∷ received byte 0x3da (d t 0x3da % 256)
          ∷ t)
        apart in
    (p.0, p.1 ∙ ground arith)

-- A block from register 0 on.
pub whole_block_lem :
    (k index values first n : ℕ) (registers : ℕ → ℕ) (d : Device) (t : List Event)
    → index < 2 ^ 16
    → values < 2 ^ 16
    → (index == values) ≡ false
    → k ≤ 256
    → let r = write_block (port8 index) (port8 values) first registers k 0 d t in
      (r.0 ≡ some tt)
      × (held index values n r.1
          ≡ (if ltb n k then registers (first + n) % 256 else held index values n t))
whole_block_lem k index values first n registers d t p q apart room =
    let r = write_block_lem k index values first 0 n registers d t p q apart (omega arith) in
    (r.0, r.1 ∙ ground arith)
