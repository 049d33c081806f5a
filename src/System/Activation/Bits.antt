-- ===== src/System/Activation/Bits.antt =====
-- The bits of the keyboard controller's command byte that KeyboardDriver::Activate and
-- MouseDriver::Activate leave.
use implementing_os_and_syst.Base.{ℕ, ◌/◌, ◌%◌, ◌^◌, ◌<◌, ◌≡◌, refl, Bool, true, ◌&&◌, ◌==◌, arith}
use implementing_os_and_syst.Base.Bits.{range_passes, range_passes_at}
use implementing_os_and_syst.Drivers.Keyboard.Activation.{with_interrupts}
use implementing_os_and_syst.Drivers.Mouse.Activation.{with_mouse_interrupt}

-- Both interrupts and the clock of the keyboard are on, and the other bits are those of `before`.
pub record BothOn (before after : ℕ) : Type 0 where
  pub keyboard_interrupt : after % 2 ≡ 1
  pub mouse_interrupt : after / 2 % 2 ≡ 1
  pub keyboard_clock : after / 16 % 2 ≡ 0
  pub middle : after / 4 % 4 ≡ before / 4 % 4
  pub high : after / 32 ≡ before / 32

abbrev pub final_byte : ℕ → ℕ
final_byte c = with_mouse_interrupt (with_interrupts c % 2 ^ 8 % 2 ^ 8) % 2 ^ 8

abbrev both_on : ℕ → ℕ → Bool
both_on before after =
    (after % 2 == 1)
    && (after / 2 % 2 == 1)
    && (after / 16 % 2 == 0)
    && (after / 4 % 4 == before / 4 % 4)
    && (after / 32 == before / 32)

both_on-BothOn : (before after : ℕ) → both_on before after ≡ true → BothOn before after
both_on-BothOn before after e = record {
  keyboard_interrupt = ground arith;
  mouse_interrupt = ground arith;
  keyboard_clock = ground arith;
  middle = ground arith;
  high = ground arith;
}

abbrev is_on : ℕ → Bool
is_on c = both_on c (final_byte c)

all_on : range_passes is_on 256 ≡ true
unfolding range_passes
all_on = refl

pub final_byte-BothOn : (c : ℕ) → c < 256 → BothOn c (final_byte c)
final_byte-BothOn c l = both_on-BothOn c (final_byte c) (range_passes_at is_on 256 c l all_on)
