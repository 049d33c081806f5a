-- ===== src/Kernel/Tests.antt =====
-- The console, the integers, the searches and the pointer of source/src/kernel.cpp on small inputs.
use implementing_os_and_syst.Base.{
  ℕ, ◌*◌, ◌-◌, ◌^◌, Bool, not, true, ◌==◌, ltb, codes, ◌≡◌, refl, some, [], ◌∷◌, ◌++◌, arith,
}
use implementing_os_and_syst.Kernel.Console.{Console, printf}
use implementing_os_and_syst.Kernel.Integers.{int_to_string, digits_loop}
use implementing_os_and_syst.Base.Bits.{range_passes, range_passes_at}
use implementing_os_and_syst.Kernel.Products.{long_running_program, long_running_program_lem}
use implementing_os_and_syst.Kernel.Collatz.{orbit, orbit_text, print_collatz, print_collatz_lem}
use implementing_os_and_syst.Kernel.Scanf.{scanf, scanf-int_to_string}

abbrev screen : Console
screen = record { video = λ i. 0x0700; x = 0; y = 3 }

text_of_minus_120 : int_to_string (2 ^ 32 - 120) 20 ≡ b'-' ∷ b'1' ∷ b'2' ∷ b'0' ∷ []
unfolding int_to_string digits_loop
text_of_minus_120 = refl

scanf-int_to_string_example :
    scanf (λ i. []) (int_to_string 1234 20 ++ b'\n' ∷ []) screen ≡ some 1234
scanf-int_to_string_example =
    scanf-int_to_string 1234 [] (λ i. []) screen (omega arith) (omega arith)

abbrev white : ℕ → ℕ
white i = 0x0720

-- 3, 10, 5, 16, 8, 4, 2, 1.
abbrev is_running : ℕ → Bool
is_running j = not (orbit j 3 == 1)

abbrev is_small : ℕ → Bool
is_small j = ltb (orbit j 3) 100

run_of_three : range_passes is_running 7 ≡ true
unfolding range_passes
run_of_three = refl

small_of_three : range_passes is_small 8 ≡ true
unfolding range_passes
small_of_three = refl

print_collatz_lem_example :
    print_collatz 10 3 screen
    ≡ some (printf (((int_to_string 3 20 ++ codes " : ") ++ orbit_text 7 3) ++ codes "\n") screen)
print_collatz_lem_example =
    print_collatz_lem 7 10 3 screen (omega arith)
      (λ j h. ground (arith, range_passes_at is_running 7 j h run_of_three)) refl
      (λ j h. ground (arith, range_passes_at is_small 8 j (omega arith) small_of_three))

long_running_program_lem_example : long_running_program 1000 ≡ 499500 * 499500
long_running_program_lem_example = long_running_program_lem 1000 (omega arith)
