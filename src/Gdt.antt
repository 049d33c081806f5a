-- ===== src/Gdt.antt =====
-- source/src/gdt.cpp and source/include/gdt.h: the segment descriptors of the global descriptor table.
pub mod Roundtrip
mod Tests
use implementing_os_and_syst.Base.{
  ℕ, ◌+◌, ◌-◌, ◌*◌, ◌/◌, ◌%◌, ◌^◌, bit_or, bit_and, leb, ◌==◌, if◌then◌else◌,
}

-- The eight bytes of a descriptor, `target[0]` to `target[7]`. Read as the members of the struct they
-- are `limit_lo` (two bytes), `base_lo` (two bytes), `base_hi`, `type`, `limit_hi`, `base_vhi`.
pub record SegmentDescriptor : Type 0 where
  pub byte0 : ℕ
  pub byte1 : ℕ
  pub byte2 : ℕ
  pub byte3 : ℕ
  pub byte4 : ℕ
  pub byte5 : ℕ
  pub byte6 : ℕ
  pub byte7 : ℕ

-- The limit as the constructor encodes it: above 65536 in pages of 4096 bytes.
pub encoded_limit : ℕ → ℕ
encoded_limit limit =
    if leb limit 65536
    then limit
    else (if limit % 4096 == 0xFFF then limit / 4096 else limit / 4096 - 1)

-- `target[6]` before the high bits of the limit are added.
pub granularity : ℕ → ℕ
granularity limit = if leb limit 65536 then 0x40 else 0xC0

-- The constructor. `x & 0xFF` is `x % 256`, and `x >> 8` is `x / 256`.
pub segment_descriptor : ℕ → ℕ → ℕ → SegmentDescriptor
unfolding encoded_limit granularity
segment_descriptor base limit type =
    let l = encoded_limit limit in
    record {
      byte0 = l % 256;
      byte1 = l / 256 % 256;
      byte2 = base % 256;
      byte3 = base / 256 % 256;
      byte4 = base / 65536 % 256;
      byte5 = type;
      byte6 = bit_or (granularity limit) (l / 65536 % 16);
      byte7 = base / 16777216 % 256;
    }

-- `(result << 8) + byte` on a `uint32_t`.
abbrev pub push_byte : ℕ → ℕ → ℕ
push_byte result byte = (result * 256 + byte) % 2 ^ 32

pub base : SegmentDescriptor → ℕ
base d = push_byte (push_byte (push_byte d.byte7 d.byte4) d.byte3) d.byte2

-- `(result << 12) | 0xFFF` fills twelve bits that the shift has cleared, so `|` is `+`.
pub limit : SegmentDescriptor → ℕ
limit d =
    let result = push_byte (push_byte (d.byte6 % 16) d.byte1) d.byte0 in
    if bit_and d.byte6 0xC0 == 0xC0 then result * 4096 % 2 ^ 32 + 0xFFF else result

-- The offsets of the members of the table, which follow the null and the unused descriptor.
abbrev pub code_segment_at : ℕ → ℕ
code_segment_at this = this + 16

abbrev pub data_segment_at : ℕ → ℕ
data_segment_at this = this + 24

unfoldable pub code_segment_selector : ℕ → ℕ
code_segment_selector this = (code_segment_at this - this) % 2 ^ 16

unfoldable pub data_segment_selector : ℕ → ℕ
data_segment_selector this = (data_segment_at this - this) % 2 ^ 16

-- The descriptors that the constructor of the table makes.
pub record GlobalDescriptorTable : Type 0 where
  pub null_segment : SegmentDescriptor
  pub unused_segment : SegmentDescriptor
  pub code_segment : SegmentDescriptor
  pub data_segment : SegmentDescriptor

pub global_descriptor_table : GlobalDescriptorTable
global_descriptor_table = record {
  null_segment = segment_descriptor 0 0 0;
  unused_segment = segment_descriptor 0 0 0;
  code_segment = segment_descriptor 0 (64 * 1024 * 1024) 0x9A;
  data_segment = segment_descriptor 0 (64 * 1024 * 1024) 0x92;
}
