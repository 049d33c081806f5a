-- ===== src/Kernel/Sleep.antt =====
-- sleep of source/src/kernel.cpp: a busy loop. A `long int` has 32 bits; `s * d` is not beyond them for the
-- seconds that the loop is proved for.
use implementing_os_and_syst.Base.{
  ℕ, zero, suc, ◌+◌, ◌*◌, ◌%◌, ◌^◌, ◌≤◌, ◌<◌, ◌≡◌, ap, ◌∙◌, true, false, Option, none, some,
  if◌then◌else◌, arith,
}
use implementing_os_and_syst.Machine.{word_mod, signed_lt}

-- The loop from `i` on: `i` is increased in its body and behind it. The result is the last `i`.
pub sleep_loop : ℕ → ℕ → ℕ → Option ℕ
sleep_loop zero bound i = none
sleep_loop (suc fuel) bound i =
    let rest = sleep_loop fuel bound ((i + 2) % word_mod) in
    if signed_lt i bound then rest else some i

unfoldable pub sleep : ℕ → ℕ → Option ℕ
sleep fuel s = sleep_loop fuel (s * 100_000_000 % word_mod) 0

goes_on : (i k bound : ℕ) → bound ≡ i + 2 * suc k → bound < 2 ^ 31 → signed_lt i bound ≡ true
goes_on i k bound e l = ground arith

stops : (i bound : ℕ) → bound ≡ i + 2 * 0 → bound < 2 ^ 31 → signed_lt i bound ≡ false
stops i bound e l = ground arith

same_word : (n : ℕ) → n < 2 ^ 31 → n % word_mod ≡ n
same_word n l = omega arith

sleep_loop_lem :
    (k bound i : ℕ) → bound ≡ i + 2 * k → bound < 2 ^ 31 → sleep_loop (suc k) bound i ≡ some bound
unfolding sleep_loop
sleep_loop_lem zero bound i e l = rw (stops i bound e l) (ap (λ (n : ℕ). some n) (omega (arith, e)))
sleep_loop_lem (suc k) bound i e l =
    rw (goes_on i k bound e l, same_word (i + 2) (omega (arith, e, l)))
      (sleep_loop_lem k bound (i + 2) (omega (arith, e)) l)

-- For at most 21 seconds the loop ends: after 50,000,000 rounds for each second.
pub sleep_ends : (s : ℕ) → s ≤ 21 → sleep (suc (50_000_000 * s)) s ≡ some (100_000_000 * s)
unfolding sleep
sleep_ends s l =
    ap (λ (bound : ℕ). sleep_loop (suc (50_000_000 * s)) bound 0) {x = s * 100_000_000 % word_mod}
      {y = 100_000_000 * s} (omega arith)
    ∙ sleep_loop_lem (50_000_000 * s) (100_000_000 * s) 0 (omega arith) (omega (arith, l))
