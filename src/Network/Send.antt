-- ===== src/Network/Send.antt =====
-- Send of source/src/drivers/amd_am79c973.cpp: the frame in the card's buffer, and its descriptor.
use implementing_os_and_syst.Base.{
  ℕ, zero, suc, ◌+◌, ◌-◌, ◌%◌, ◌^◌, ◌≤◌, ◌<◌, ◌≡◌, refl, ap, ◌∙◌, ◌⊎◌, some, false, true, ◌&&◌, ltb,
  leb, List, ◌==◌, if◌then◌else◌, arith,
}
use implementing_os_and_syst.Ports.{Device, Event}
use implementing_os_and_syst.Network.{Amd, copy_down, sent_size, copied, send, is_ours}

-- Copying from the last byte down is right where the two areas lie apart, or the copy above the source.
copy_down_lem :
    (k buffer address a : ℕ) (bytes : ℕ → ℕ)
    → (buffer ≤ address) ⊎ (address + k ≤ buffer)
    → copy_down k buffer address bytes a
      ≡ (if leb address a && ltb a (address + k) then bytes (buffer + (a - address)) else bytes a)
unfolding copy_down
copy_down_lem zero buffer address a bytes clear = ground arith
copy_down_lem (suc k) buffer address a bytes clear =
    copy_down_lem k buffer address a (λ b. if address + k == b then bytes (buffer + k) else bytes b)
      (ground arith)
    ∙ ground arith

-- The length of a frame, for a size that is not negative.
abbrev pub frame_length : ℕ → ℕ
frame_length size = if ltb 1518 size then 1518 else size

sent_size-frame_length : (size : ℕ) → size < 2 ^ 31 → sent_size size ≡ frame_length size
sent_size-frame_length size h = ground arith

copied-frame_length : (size : ℕ) → size < 2 ^ 31 → copied size ≡ frame_length size
copied-frame_length size h = ground arith

itself : (i : ℕ) → (i == i) ≡ true
itself i = ground arith

-- Send puts the frame, cut to 1518 bytes, into the buffer of the current descriptor and changes no other
-- byte; it hands that descriptor to the card with the length of the frame as its two's complement in
-- 12 bits, leaves the others alone, and goes on to the next of the eight. The buffer may overlap the frame
-- only where it lies behind the frame's beginning.
pub send_lem :
    (buffer size a j : ℕ) (c : Amd) (d : Device) (t : List Event)
    → size < 2 ^ 31
    → let i = c.current_send_buffer in
      let n = frame_length size in
      let address = (c.send_buffer_descr i).address in
      (buffer ≤ address) ⊎ (address + n ≤ buffer)
      → (after : Amd) × ((send buffer size c d t).0 ≡ some after)
        × (after.bytes a ≡ (
            if leb address a && ltb a (address + n)
            then c.bytes (buffer + (a - address))
            else c.bytes a))
        × (is_ours (after.send_buffer_descr i) ≡ false)
        × ((4096 - (after.send_buffer_descr i).flags % 4096) % 4096 ≡ n)
        × (after.current_send_buffer ≡ (i + 1) % 8)
        × (after.send_buffer_descr j
            ≡ (if i == j then after.send_buffer_descr i else c.send_buffer_descr j))
unfolding send
send_lem buffer size a j c d t positive clear = (
  _,
  refl,
  ap (λ k. copy_down k buffer (c.send_buffer_descr c.current_send_buffer).address c.bytes a)
        (copied-frame_length size positive)
      ∙ copy_down_lem (frame_length size) buffer (c.send_buffer_descr c.current_send_buffer).address
          a c.bytes clear,
  rw (itself c.current_send_buffer) (ground arith),
  rw (itself c.current_send_buffer) (
      ap (λ (n : ℕ). (4096 - (0x8300_F000 + (2 ^ 32 - n) % 0x1000) % 4096) % 4096)
        (sent_size-frame_length size positive)
      ∙ ground arith),
  refl,
  rw (itself c.current_send_buffer) refl,
)
