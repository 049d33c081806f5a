-- ===== src/Network.antt =====
-- amd_am79c973 of source/src/drivers/amd_am79c973.cpp: the network card, its two rings of eight buffers, and
-- its interrupt, as actions on its ports.
pub mod Setup
pub mod Send
pub mod Ring
pub mod Receive
pub mod Interrupt
mod Tests
use implementing_os_and_syst.Base.{
  ℕ, zero, suc, ◌+◌, ◌-◌, ◌*◌, ◌/◌, ◌%◌, ◌^◌, Bool, not, ◌&&◌, List, [], ◌∷◌, codes, ltb, ◌==◌,
  if◌then◌else◌,
}
use implementing_os_and_syst.Machine.{word_mod, signed_lt}
use implementing_os_and_syst.Kernel.Hex.{hex_text}
use implementing_os_and_syst.Ports.{
  Event, Device, Io, Port, port16, pure, stuck, print, read, write, when, ◌>>=◌, ◌>>◌,
}

pub record BufferDescriptor : Type 0 where
  pub address : ℕ
  pub flags : ℕ
  pub flags2 : ℕ
  pub avail : ℕ

-- Of the block that the card reads at its start: the fields that the constructor does not set to zero.
pub record InitializationBlock : Type 0 where
  pub num_send_buffers : ℕ
  pub num_recv_buffers : ℕ
  pub physical_address : ℕ
  pub recv_buffer_descr_address : ℕ
  pub send_buffer_descr_address : ℕ

-- The fields, with the descriptors by their number, and the memory as bytes.
pub record Amd : Type 0 where
  pub port_base : ℕ
  pub init_block : InitializationBlock
  pub send_buffer_descr : ℕ → BufferDescriptor
  pub current_send_buffer : ℕ
  pub recv_buffer_descr : ℕ → BufferDescriptor
  pub current_recv_buffer : ℕ
  pub bytes : ℕ → ℕ

-- The ports that the constructor makes.
abbrev pub mac_address_port : ℕ → ℕ → Port
mac_address_port base n = port16 (base + n)

abbrev pub register_data_port : ℕ → Port
register_data_port base = port16 (base + 0x10)

abbrev pub register_address_port : ℕ → Port
register_address_port base = port16 (base + 0x12)

abbrev pub reset_port : ℕ → Port
reset_port base = port16 (base + 0x14)

abbrev pub bus_control_register_data_port : ℕ → Port
bus_control_register_data_port base = port16 (base + 0x16)

abbrev pub set_descr : ℕ → BufferDescriptor → (ℕ → BufferDescriptor) → ℕ → BufferDescriptor
set_descr i b descrs j = if i == j then b else descrs j

-- The loop of Send, `k` bytes of it, from the last one down to the first.
pub copy_down : ℕ → ℕ → ℕ → (ℕ → ℕ) → ℕ → ℕ
copy_down zero buffer address bytes = bytes
copy_down (suc k) buffer address bytes =
    copy_down k buffer address (λ a. if address + k == a then bytes (buffer + k) else bytes a)

-- `size` after the test against 1518, and how often the loop runs: not at all for a negative `int`.
abbrev pub sent_size : ℕ → ℕ
sent_size size = if signed_lt 1518 size then 1518 else size

abbrev pub copied : ℕ → ℕ
copied size = if ltb (sent_size size) (2 ^ 31) then sent_size size else 0

-- Send, with `size` the pattern of an `int`.
pub send : ℕ → ℕ → Amd → Io Amd
send buffer size c = do
  let descr = c.send_buffer_descr c.current_send_buffer
  write (register_address_port c.port_base) 0
  write (register_data_port c.port_base) 0x48
  pure (record c {
    current_send_buffer = (c.current_send_buffer + 1) % 8;
    bytes = copy_down (copied size) buffer descr.address c.bytes;
    send_buffer_descr =
        set_descr c.current_send_buffer
          (record {
            address = descr.address;
            flags = 0x8300_F000 + (word_mod - sent_size size) % 0x1000;
            flags2 = 0;
            avail = 0;
          })
          c.send_buffer_descr;
  })

-- `(flags & 0x80000000) == 0`: the driver owns the buffer.
abbrev pub is_ours : BufferDescriptor → Bool
is_ours b = b.flags / 2 ^ 31 % 2 == 0

-- A whole frame without an error.
abbrev pub is_frame : BufferDescriptor → Bool
is_frame b = (b.flags / 2 ^ 30 % 2 == 0) && (b.flags / 2 ^ 24 % 4 == 3)

-- How many bytes are printed: the checksum is left out.
abbrev pub frame_size : BufferDescriptor → ℕ
frame_size b = let size = b.flags % 0x1000 in if ltb 64 size then size - 4 else size

-- The loop that prints `k` bytes from the address on.
pub print_bytes : (ℕ → ℕ) → ℕ → ℕ → Io Unit
print_bytes bytes zero a = pure tt
print_bytes bytes (suc k) a = do
  print (hex_text (bytes a))
  print (codes " ")
  print_bytes bytes k (a + 1)

-- A frame is printed; other buffers are passed over.
abbrev pub print_frame : (ℕ → ℕ) → BufferDescriptor → Io Unit
print_frame bytes b = when (is_frame b) (print_bytes bytes (frame_size b) b.address)

-- `flags2 = 0` and `flags = 0x8000F7FF`: the buffer goes back to the card.
abbrev pub handed_back : BufferDescriptor → BufferDescriptor
handed_back b = record b { flags = 0x8000_F7FF; flags2 = 0 }

-- The body of the loop of Receive and its step to the next buffer.
abbrev pub next_buffer : Amd → Amd
next_buffer c = record c {
  current_recv_buffer = (c.current_recv_buffer + 1) % 8;
  recv_buffer_descr =
      set_descr c.current_recv_buffer (handed_back (c.recv_buffer_descr c.current_recv_buffer))
        c.recv_buffer_descr;
}

-- The loop of Receive, at most `fuel` rounds of it.
pub receive_loop : ℕ → Amd → Io Amd
receive_loop zero c = if is_ours (c.recv_buffer_descr c.current_recv_buffer) then stuck else pure c
receive_loop (suc fuel) c =
    let b = c.recv_buffer_descr c.current_recv_buffer in
    if is_ours b then (do print_frame c.bytes b; receive_loop fuel (next_buffer c)) else pure c

-- Receive.
pub receive : ℕ → Amd → Io Amd
receive fuel c = do print (codes "AMD am79c973 DATA RECEIVED\n"); receive_loop fuel c

-- A bit of the status register.
abbrev pub has_bit : ℕ → ℕ → Bool
has_bit status n = status / 2 ^ n % 2 == 1

-- HandleInterrupt; it returns its argument `esp` whatever it does.
pub handle_interrupt : ℕ → Amd → Io Amd
handle_interrupt fuel c = do
  print (codes "INTERRUPT FROM AMD am79c973\n")
  write (register_address_port c.port_base) 0
  status ← read (register_data_port c.port_base)
  when (has_bit status 15) (print (codes "AMD am79c973 ERROR\n"))
  when (has_bit status 13) (print (codes "AMD am79c973 COLLISION ERROR\n"))
  when (has_bit status 12) (print (codes "AMD am79c973 MISSED FRAME\n"))
  when (has_bit status 11) (print (codes "AMD am79c973 MEMORY ERROR\n"))
  after ← (if has_bit status 10 then receive fuel c else pure c)
  when (has_bit status 9) (print (codes "AMD am79c973 DATA SENT\n"))
  write (register_address_port c.port_base) 0
  write (register_data_port c.port_base) status
  when (has_bit status 8) (print (codes "AMD am79c973 INIT DONE\n"))
  pure after
