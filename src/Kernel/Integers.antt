-- ===== src/Kernel/Integers.antt =====
-- int_to_string and print_integer of source/src/kernel.cpp. An `int` is its 32-bit pattern.
use implementing_os_and_syst.Base.{
  ℕ, zero, suc, ◌+◌, ◌-◌, ◌/◌, ◌%◌, ◌^◌, ◌≤◌, ◌<◌, List, [], ◌∷◌, length, All, ltb, ◌==◌,
  if◌then◌else◌, arith, Bool, Bool-cases, inl, inr,
}
use implementing_os_and_syst.Kernel.Console.{Console, IsPlain, Printed, printf, printf-Printed}

-- `num < 0`
abbrev pub is_negative : ℕ → Bool
is_negative num = ltb (2 ^ 31 - 1) num

-- `-num`; for the smallest `int` it overflows, which C++ leaves undefined.
abbrev pub negate : ℕ → ℕ
negate num = (2 ^ 32 - num) % 2 ^ 32

-- The do loop: `temp` with its last element first, `k` the room that is left behind the element that
-- is written now, `buffer_size - index - 1`.
unfoldable pub digits_loop : ℕ → ℕ → List ℕ → List ℕ
digits_loop zero num temp = (num % 10 + b'0') ∷ temp
digits_loop (suc k) num temp =
    let rest = digits_loop k (num / 10) ((num % 10 + b'0') ∷ temp) in
    if num / 10 == 0 then (num % 10 + b'0') ∷ temp else rest

-- The characters in front of the zero that ends the buffer, for `buffer_size` at least 2.
unfoldable pub int_to_string : ℕ → ℕ → List ℕ
int_to_string num buffer_size =
    if is_negative num
    then b'-' ∷ digits_loop (buffer_size - 2) (negate num) []
    else digits_loop (buffer_size - 1) num []

unfoldable pub print_integer : ℕ → Console → Console
print_integer num s = printf (int_to_string num 20) s

digits_loop-All :
    (k num : ℕ) (temp : List ℕ) → All IsPlain temp → All IsPlain (digits_loop k num temp)
unfolding digits_loop
digits_loop-All zero num temp h = ((omega arith, λ e. omega arith), h)
digits_loop-All (suc k) num temp h = elim (Bool-cases (num / 10 == 0)) [
  | inl t ↦ rw t ((omega arith, λ e. omega arith), h)
  | inr f ↦ rw f (digits_loop-All k (num / 10) _ ((omega arith, λ e. omega arith), h))
]

-- A number below 10 ^ d has at most d digits.
digits_loop_short :
    (d k num : ℕ) (temp : List ℕ)
    → num < 10 ^ suc d
    → length (digits_loop k num temp) ≤ suc d + length temp
unfolding digits_loop
digits_loop_short d zero num temp h = omega arith
digits_loop_short zero (suc k) num temp h = ground arith
digits_loop_short (suc d) (suc k) num temp h =
    let ih = digits_loop_short d k (num / 10) ((num % 10 + b'0') ∷ temp) (omega arith) in
    ground (arith, ih)

int_to_string-All : (num : ℕ) → num < 2 ^ 32 → All IsPlain (int_to_string num 20)
unfolding int_to_string
int_to_string-All num h = elim (Bool-cases (is_negative num)) [
  | inl t ↦ rw t ((omega arith, λ e. omega arith), digits_loop-All 18 (negate num) [] tt)
  | inr f ↦ rw f (digits_loop-All 19 num [] tt)
]

int_to_string_short : (num : ℕ) → num < 2 ^ 32 → length (int_to_string num 20) ≤ 11
unfolding int_to_string
int_to_string_short num h =
    let a = digits_loop_short 9 18 (negate num) [] (omega arith) in
    let b = digits_loop_short 9 19 num [] (omega arith) in ground (arith, a, b)

-- print_integer shows the decimal text of any `int`, at most 11 characters, when the cursor is on
-- the screen and 12 columns are left of its line; no other cell changes.
pub print_integer-Printed :
    (num : ℕ) (s : Console)
    → num < 2 ^ 32
    → s.x + 11 < 80
    → s.y < 25
    → (length (int_to_string num 20) ≤ 11) × Printed (int_to_string num 20) s (print_integer num s)
unfolding print_integer
print_integer-Printed num s h k l = (
  int_to_string_short num h,
  printf-Printed (int_to_string num 20) s (int_to_string-All num h)
      (omega (arith, int_to_string_short num h)) l,
)
