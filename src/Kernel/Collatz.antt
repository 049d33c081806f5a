-- ===== src/Kernel/Collatz.antt =====
-- printCollatz and calculate_Collatz of source/src/kernel.cpp. An `int` is its 32-bit
-- pattern; the loops take fuel, and give `none` where they have not ended within it.
use implementing_os_and_syst.Base.{
  ℕ, zero, suc, ◌+◌, ◌*◌, ◌/◌, ◌%◌, ◌^◌, ◌≤◌, ◌<◌, ◌≡◌, ◌≢◌, refl, ap, ◌∙◌, sym, Option, some, none,
  List, [], ◌++◌, codes, ◌==◌, if◌then◌else◌, arith, true, false,
}
use implementing_os_and_syst.Kernel.Console.{Console, printf, printf-append, printf_empty}
use implementing_os_and_syst.Kernel.Integers.{int_to_string, print_integer, is_negative, negate}

-- The body of the loop: `n /= 2` or `n = 3 * n + 1`.
unfoldable pub collatz_next : ℕ → ℕ
collatz_next n =
    if n % 2 == 0
    then if is_negative n then negate (negate n / 2) else n / 2
    else (3 * n + 1) % 2 ^ 32

-- The loop of printCollatz.
pub print_collatz_loop : ℕ → ℕ → Console → Option Console
print_collatz_loop zero n s = if n == 1 then some s else none
print_collatz_loop (suc fuel) n s =
    let rest =
      print_collatz_loop fuel (collatz_next n)
        (print_integer (collatz_next n) (printf (codes ", ") s)) in
    if n == 1 then some s else rest

-- The line break behind the sequence.
abbrev pub end_line : Option Console → Option Console
end_line none = none
end_line (some s) = some (printf (codes "\n") s)

-- printCollatz.
pub print_collatz : ℕ → ℕ → Console → Option Console
print_collatz fuel n s =
    end_line (print_collatz_loop fuel n (printf (codes " : ") (print_integer n s)))

-- calculate_Collatz, with the number that it ends with.
unfoldable pub calculate_collatz : ℕ → ℕ → Option ℕ
calculate_collatz zero n = if n == 1 then some n else none
calculate_collatz (suc fuel) n =
    let rest = calculate_collatz fuel (collatz_next n) in if n == 1 then some n else rest

-- The Collatz sequence of natural numbers, and the text of its next `k` numbers.
abbrev pub collatz_step : ℕ → ℕ
collatz_step n = if n % 2 == 0 then n / 2 else 3 * n + 1

abbrev pub orbit : ℕ → ℕ → ℕ
orbit zero n = n
orbit (suc k) n = orbit k (collatz_step n)

abbrev pub orbit_text : ℕ → ℕ → List ℕ
orbit_text zero n = []
orbit_text (suc k) n =
    codes ", " ++ (int_to_string (collatz_step n) 20 ++ orbit_text k (collatz_step n))

collatz_next-collatz_step :
    (n : ℕ) → n < 2 ^ 31 → collatz_step n < 2 ^ 31 → collatz_next n ≡ collatz_step n
unfolding collatz_next
collatz_next-collatz_step n h k = ground arith

is_one : (n : ℕ) → n ≡ 1 → (n == 1) ≡ true
is_one n h = ground arith

not_one : (n : ℕ) → n ≢ 1 → (n == 1) ≡ false
not_one n h = ground arith

print_collatz_loop_zero : (fuel : ℕ) (s : Console) → print_collatz_loop fuel 0 s ≡ none
unfolding print_collatz_loop collatz_next
print_collatz_loop_zero zero s = refl
print_collatz_loop_zero (suc fuel) s =
    print_collatz_loop_zero fuel (print_integer 0 (printf (codes ", ") s))

calculate_collatz_zero : (fuel : ℕ) → calculate_collatz fuel 0 ≡ none
unfolding calculate_collatz collatz_next
calculate_collatz_zero zero = refl
calculate_collatz_zero (suc fuel) = calculate_collatz_zero fuel

print_collatz_loop_lem :
    (k fuel n : ℕ) (s : Console)
    → k ≤ fuel
    → ((j : ℕ) → j < k → orbit j n ≢ 1)
    → orbit k n ≡ 1
    → ((j : ℕ) → j ≤ k → orbit j n < 2 ^ 31)
    → print_collatz_loop fuel n s ≡ some (printf (orbit_text k n) s)
unfolding print_collatz_loop print_integer
print_collatz_loop_lem zero zero n s enough before at bounded =
    rw (is_one n at) (ap some (sym (printf_empty s)))
print_collatz_loop_lem zero (suc fuel) n s enough before at bounded =
    rw (is_one n at) (ap some (sym (printf_empty s)))
print_collatz_loop_lem (suc k) zero n s enough before at bounded = absurd (omega arith)
print_collatz_loop_lem (suc k) (suc fuel) n s enough before at bounded =
    let m = collatz_step n in
    let comma = printf (codes ", ") s in
    rw (not_one n (before 0 (omega arith))) (
      ap (λ (v : ℕ). print_collatz_loop fuel v (printf (int_to_string v 20) comma))
        (collatz_next-collatz_step n (bounded 0 (omega arith)) (bounded 1 (omega arith)))
      ∙ print_collatz_loop_lem k fuel m (printf (int_to_string m 20) comma) (omega arith)
          (λ j h. before (suc j) (omega arith)) at (λ j h. bounded (suc j) (omega arith))
      ∙ ap some (
          printf-append (int_to_string m 20) (orbit_text k m) comma
          ∙ printf-append (codes ", ") (int_to_string m 20 ++ orbit_text k m) s))

-- printCollatz ends where the Collatz sequence of `n` comes to 1, and prints the number and that sequence:
-- as long as its numbers are no larger than the largest `int`, with fuel for its length.
pub print_collatz_lem :
    (k fuel n : ℕ) (s : Console)
    → k ≤ fuel
    → ((j : ℕ) → j < k → orbit j n ≢ 1)
    → orbit k n ≡ 1
    → ((j : ℕ) → j ≤ k → orbit j n < 2 ^ 31)
    → print_collatz fuel n s
      ≡ some (printf (((int_to_string n 20 ++ codes " : ") ++ orbit_text k n) ++ codes "\n") s)
unfolding print_collatz print_integer
print_collatz_lem k fuel n s enough before at bounded =
    let t = printf (int_to_string n 20) s in
    ap end_line (print_collatz_loop_lem k fuel n (printf (codes " : ") t) enough before at bounded)
    ∙ ap some (
        ap (λ u. printf (codes "\n") (printf (orbit_text k n) u))
          (printf-append (int_to_string n 20) (codes " : ") s)
        ∙ ap (printf (codes "\n"))
            (printf-append (int_to_string n 20 ++ codes " : ") (orbit_text k n) s)
        ∙ printf-append ((int_to_string n 20 ++ codes " : ") ++ orbit_text k n) (codes "\n") s)

-- On 0 the loops never end, whatever their fuel.
pub collatz_of_zero :
    (fuel : ℕ) (s : Console) → (print_collatz fuel 0 s ≡ none) × (calculate_collatz fuel 0 ≡ none)
unfolding print_collatz
collatz_of_zero fuel s = (
  ap end_line (print_collatz_loop_zero fuel (printf (codes " : ") (print_integer 0 s))),
  calculate_collatz_zero fuel,
)
