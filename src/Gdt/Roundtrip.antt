-- ===== src/Gdt/Roundtrip.antt =====
-- What Base() and Limit() read back from a descriptor that the constructor made.
use implementing_os_and_syst.Base.Bits.{range_passes, range_passes_at}
use implementing_os_and_syst.Base.{
  ℕ, ◌+◌, ◌-◌, ◌/◌, ◌%◌, ◌^◌, ◌≤◌, ◌<◌, ◌≡◌, refl, Bool, true, ◌&&◌, bit_or, bit_and, arith, leb,
  ◌==◌, if◌then◌else◌,
}
use implementing_os_and_syst.Gdt.{segment_descriptor, encoded_limit, base, limit}

abbrev fills : ℕ → ℕ → Bool
fills g x = (bit_or g x % 16 == x) && (bit_and (bit_or g x) 0xC0 == g)

fills_table : range_passes (λ x. fills 0x40 x && fills 0xC0 x) 16 ≡ true
unfolding range_passes
fills_table = refl

low_fills : (x : ℕ) → x < 16 → (fills 0x40 x && fills 0xC0 x) ≡ true
low_fills x h = range_passes_at (λ x. fills 0x40 x && fills 0xC0 x) 16 x h fills_table

-- The low four bits of `target[6]` are those of the limit, its two high bits the granularity.
byte6_small : (x : ℕ) → x < 16 → (bit_or 0x40 x % 16 ≡ x) × (bit_and (bit_or 0x40 x) 0xC0 ≡ 0x40)
byte6_small x h = ground (arith, low_fills x h)

byte6_large : (x : ℕ) → x < 16 → (bit_or 0xC0 x % 16 ≡ x) × (bit_and (bit_or 0xC0 x) 0xC0 ≡ 0xC0)
byte6_large x h = ground (arith, low_fills x h)

-- Base() returns the 32-bit base that the constructor was given, whatever the limit and the type.
pub base-segment_descriptor : (b l t : ℕ) → b < 2 ^ 32 → base (segment_descriptor b l t) ≡ b
unfolding base segment_descriptor
base-segment_descriptor b l t h = omega arith

-- The limit that a segment really gets: the one asked for up to 65536 and where its twelve low bits
-- are ones, and otherwise the end of the last whole page below it.
abbrev pub effective_limit : ℕ → ℕ
effective_limit l = if leb l 65536 then l else (if l % 4096 == 0xFFF then l else l - l % 4096 - 1)

limit_small : (b l t : ℕ) → l ≤ 65536 → limit (segment_descriptor b l t) ≡ l
unfolding limit segment_descriptor
limit_small b l t h = ground (arith, byte6_small (l / 65536 % 16))

limit_large :
    (b l t : ℕ) → 65536 < l → l < 2 ^ 32 → limit (segment_descriptor b l t) ≡ effective_limit l
unfolding limit segment_descriptor
limit_large b l t h k = ground (arith, byte6_large (encoded_limit l / 65536 % 16))

-- Limit() reads back the effective limit of any 32-bit limit: never more than was asked for, and at
-- most 4095 bytes less.
pub limit-segment_descriptor :
    (b l t : ℕ)
    → l < 2 ^ 32
    → (limit (segment_descriptor b l t) ≡ effective_limit l)
      × (limit (segment_descriptor b l t) ≤ l)
      × (l ≤ limit (segment_descriptor b l t) + 4095)
limit-segment_descriptor b l t h = ground (arith, limit_small b l t, limit_large b l t)
