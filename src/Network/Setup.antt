-- ===== src/Network/Setup.antt =====
-- The constructor of source/src/drivers/amd_am79c973.cpp, and Activate and Reset.
pub mod Buffers
use implementing_os_and_syst.Base.{ℕ, zero, suc, ◌+◌, ◌-◌, ◌*◌, ◌/◌, ◌%◌, ◌^◌, ◌==◌, if◌then◌else◌}
use implementing_os_and_syst.Machine.{word_mod}
use implementing_os_and_syst.Ports.{Io, pure, read, write, ◌>>=◌, ◌>>◌}
use implementing_os_and_syst.Network.{
  Amd, BufferDescriptor, mac_address_port, register_data_port, register_address_port, reset_port,
  bus_control_register_data_port, set_descr,
}

-- Where the members of the object lie.
pub record Layout : Type 0 where
  pub init_block_at : ℕ
  pub send_buffer_descr_memory : ℕ
  pub recv_buffer_descr_memory : ℕ
  pub send_buffers : ℕ
  pub recv_buffers : ℕ

-- `(address + 15) & ~0xF`.
unfoldable pub aligned : ℕ → ℕ
aligned a = (a + 15) % word_mod / 16 * 16

-- `&sendBuffers[i]`: the rows of the arrays are 8 bytes long.
unfoldable pub buffer_address : ℕ → ℕ → ℕ
buffer_address buffers i = aligned ((buffers + 8 * i) % word_mod)

-- The address in the six words of the card, `| <<` as a sum.
unfoldable pub mac : ℕ → ℕ → ℕ → ℕ → ℕ → ℕ → ℕ
mac m0 m1 m2 m3 m4 m5 = m5 * 2 ^ 40 + m4 * 2 ^ 32 + m3 * 2 ^ 24 + m2 * 2 ^ 16 + m1 * 2 ^ 8 + m0

-- The body of the loop over the descriptors; `avail` is set to zero twice for the send buffer, and not
-- at all for the receive buffer.
abbrev pub set_up_buffer : Layout → ℕ → Amd → Amd
set_up_buffer l i c = record c {
  send_buffer_descr =
      set_descr i
        (record {
          address = buffer_address l.send_buffers i;
          flags = 0xF7FF;
          flags2 = 0;
          avail = 0;
        })
        c.send_buffer_descr;
  recv_buffer_descr =
      set_descr i
        (record {
          address = buffer_address l.recv_buffers i;
          flags = 0x8000_F7FF;
          flags2 = 0;
          avail = (c.recv_buffer_descr i).avail;
        })
        c.recv_buffer_descr;
}

pub set_up_buffers : Layout → ℕ → ℕ → Amd → Amd
set_up_buffers l zero i c = c
set_up_buffers l (suc k) i c = set_up_buffers l k (i + 1) (set_up_buffer l i c)

-- The fields that the constructor sets before that loop; `fresh` is what stood in the object.
abbrev pub initialised : Layout → ℕ → ℕ → Amd → Amd
initialised l base physical fresh = record fresh {
  port_base = base;
  current_send_buffer = 0;
  current_recv_buffer = 0;
  init_block = record {
    num_send_buffers = 3;
    num_recv_buffers = 3;
    physical_address = physical;
    recv_buffer_descr_address = aligned l.recv_buffer_descr_memory;
    send_buffer_descr_address = aligned l.send_buffer_descr_memory;
  };
}

abbrev pub built : Layout → ℕ → ℕ → Amd → Amd
built l base physical fresh = set_up_buffers l 8 0 (initialised l base physical fresh)

-- The constructor.
pub amd_am79c973 : Layout → ℕ → Amd → Io Amd
amd_am79c973 l base fresh = do
  w0 ← read (mac_address_port base 0)
  w1 ← read (mac_address_port base 0)
  w2 ← read (mac_address_port base 2)
  w3 ← read (mac_address_port base 2)
  w4 ← read (mac_address_port base 4)
  w5 ← read (mac_address_port base 4)
  write (register_address_port base) 20
  write (bus_control_register_data_port base) 0x102
  write (register_address_port base) 0
  write (register_data_port base) 0x04
  write (register_address_port base) 1
  write (register_data_port base) (l.init_block_at % 2 ^ 16)
  write (register_address_port base) 2
  write (register_data_port base) (l.init_block_at / 2 ^ 16 % 2 ^ 16)
  pure (built l base (mac (w0 % 256) (w1 / 256) (w2 % 256) (w3 / 256) (w4 % 256) (w5 / 256)) fresh)

-- `temp | 0xC00`, on the 16 bits that the port gives.
abbrev pub with_features : ℕ → ℕ
with_features temp = temp / 2 ^ 12 * 2 ^ 12 + 0xC00 + temp % 2 ^ 10

-- Activate.
pub activate : Amd → Io Unit
activate c = do
  write (register_address_port c.port_base) 0
  write (register_data_port c.port_base) 0x41
  write (register_address_port c.port_base) 4
  temp ← read (register_data_port c.port_base)
  write (register_address_port c.port_base) 4
  write (register_data_port c.port_base) (with_features temp)
  write (register_address_port c.port_base) 0
  write (register_data_port c.port_base) 0x42

-- Reset.
pub reset : Amd → Io ℕ
reset c = do ignored ← read (reset_port c.port_base); write (reset_port c.port_base) 0; pure 10
