-- ===== src/Multitasking/Scheduler/Pick.antt =====
-- The restarting loop of TaskManager::Schedule against a single pass over the tasks in cyclic order.
use native.Mathlib.Nat.{mod-add-mod, mod-mod, mod-lt, mod-eq_of_lt, mod-eq-sub-mod, add-zero}
use implementing_os_and_syst.Base.{
  ℕ, zero, suc, ◌+◌, ◌-◌, ◌*◌, ◌%◌, ◌≤◌, ◌<◌, ◌≡◌, refl, sym, ap, ◌∙◌, ◌⊎◌, inl, inr, true, false,
  some, arith, ltb, if◌then◌else◌, Bool-cases,
}
use implementing_os_and_syst.Machine.{word_mod}
use implementing_os_and_syst.Multitasking.{Task}
use implementing_os_and_syst.Multitasking.Scheduler.{better, pick_loop, pick}

-- One pass over the `k` positions from `pos` on, round the table of `n`, that keeps the best task.
unfoldable pub first_min : ℕ → ℕ → ℕ → ℕ → ℕ → (ℕ → Task) → ℕ
first_min zero n pos highest next tasks = next
first_min (suc k) n pos highest next tasks =
    let b = better tasks highest (pos % n) in
    first_min k n (pos + 1) (if b then (tasks (pos % n)).priority else highest)
      (if b then pos % n else next) tasks

pub better_mono :
    (tasks : ℕ → Task) (h i j : ℕ)
    → better tasks h i ≡ true
    → better tasks h j ≡ false
    → better tasks (tasks i).priority j ≡ false
unfolding better
better_mono tasks h i j p q = ground arith

pub better_irrefl : (tasks : ℕ → Task) (i : ℕ) → better tasks (tasks i).priority i ≡ false
unfolding better
better_irrefl tasks i = ground arith

-- Stepping forward commutes with going round the table.
next_mod : (a b n : ℕ) → a % n ≡ b % n → (a + 1) % n ≡ (b + 1) % n
next_mod a b n e = sym (mod-add-mod a n 1) ∙ ap (λ t. (t + 1) % n) e ∙ mod-add-mod b n 1

restart_mod : (idx pos n : ℕ) → idx ≡ pos % n → ((idx + 1) % n + 0) % n ≡ (pos + 1) % n
restart_mod idx pos n e =
    ap (λ t. t % n) (add-zero ((idx + 1) % n))
    ∙ mod-mod (idx + 1) n
    ∙ ap (λ t. (t + 1) % n) e
    ∙ mod-add-mod pos n 1

module _ (n : ℕ) (tasks : ℕ → Task) where
  -- No task of the table is better.
  abbrev pub NoneBetter : ℕ → Type 0
  NoneBetter highest = (j : ℕ) → j < n → better tasks highest j ≡ false

  -- With nothing better in the table the loop runs to its end.
  idle_loop :
      (fuel i start highest next : ℕ)
      → 0 < n
      → NoneBetter highest
      → n + 1 ≤ fuel + i
      → 0 < fuel
      → pick_loop fuel n i start highest next tasks ≡ some next
  unfolding pick_loop
  idle_loop zero i start highest next pos none_better enough some_fuel = absurd (omega arith)
  idle_loop (suc fuel) i start highest next pos none_better enough some_fuel = ground (
    arith,
    none_better ((start + i) % n) (mod-lt (start + i) pos),
    idle_loop fuel (i + 1) start highest next pos none_better,
  )

  -- A task that is better stands at one of the `k` positions from `pos` on.
  abbrev Remaining : ℕ → ℕ → ℕ → Type 0
  Remaining k pos highest =
      (j : ℕ) → j < n → (better tasks highest j ≡ false) ⊎ ((d : ℕ) × (d < k) × (j ≡ (pos + d) % n))

  keep-Remaining :
      (k pos highest : ℕ)
      → Remaining (suc k) pos highest
      → better tasks highest (pos % n) ≡ false
      → Remaining k (pos + 1) highest
  keep-Remaining k pos highest r e j lt = elim (r j lt) [ inl f ↦ inl f | inr (d, h, q) ↦ at d h q ]
    where
      at :
          (d : ℕ)
          → d < suc k
          → j ≡ (pos + d) % n
          → (better tasks highest j ≡ false) ⊎ ((d : ℕ) × (d < k) × (j ≡ (pos + 1 + d) % n))
      at zero h q = inl (rw (q, add-zero) e)
      at (suc d) h q = inr (d, omega arith, q ∙ ap (λ t. t % n) (omega arith))

  take-Remaining :
      (k pos highest : ℕ)
      → Remaining (suc k) pos highest
      → better tasks highest (pos % n) ≡ true
      → Remaining k (pos + 1) (tasks (pos % n)).priority
  take-Remaining k pos highest r e j lt = elim (r j lt) [
    | inl f ↦ inl (better_mono tasks highest (pos % n) j e f)
    | inr (d, h, q) ↦ at d h q
  ]
    where
      at :
          (d : ℕ)
          → d < suc k
          → j ≡ (pos + d) % n
          → (better tasks (tasks (pos % n)).priority j ≡ false)
            ⊎ ((d : ℕ) × (d < k) × (j ≡ (pos + 1 + d) % n))
      at zero h q = inl (rw (q, add-zero) (better_irrefl tasks (pos % n)))
      at (suc d) h q = inr (d, omega arith, q ∙ ap (λ t. t % n) (omega arith))

  none-Remaining : (pos highest : ℕ) → Remaining 0 pos highest → NoneBetter highest
  none-Remaining pos highest r j lt = elim (r j lt) [ inl f ↦ f | inr (d, h, q) ↦ elim h [ ] ]

  -- The loop, anywhere on its way, returns what the single pass over the rest returns.
  loop_first_min :
      (k fuel i start pos highest next : ℕ)
      → 0 < n
      → (start + i) % n ≡ pos % n
      → i + k ≤ n
      → k + n + 1 ≤ fuel
      → Remaining k pos highest
      → pick_loop fuel n i start highest next tasks ≡ some (first_min k n pos highest next tasks)
  unfolding pick_loop first_min
  loop_first_min zero fuel i start pos highest next p e fits enough r =
      idle_loop fuel i start highest next p (none-Remaining pos highest r) (omega arith)
        (omega arith)
  loop_first_min (suc k) zero i start pos highest next p e fits enough r = absurd (omega arith)
  loop_first_min (suc k) (suc fuel) i start pos highest next p e fits enough r =
      elim (Bool-cases (better tasks highest (pos % n))) [
        | inl b ↦ ground (
          arith,
          loop_first_min k fuel 0 ((pos % n + 1) % n) (pos + 1) (tasks (pos % n)).priority (pos % n)
              p (restart_mod (pos % n) pos n refl) (omega arith) (omega arith)
              (take-Remaining k pos highest r b),
        )
        | inr b ↦ ground (
          arith,
          loop_first_min k fuel (i + 1) start (pos + 1) highest next p
              (ap (λ t. t % n) (omega arith) ∙ next_mod (start + i) pos n e) (omega arith)
              (omega arith) (keep-Remaining k pos highest r b),
        )
      ]

  -- Every index is met in one turn round the table.
  pub cover : (start j : ℕ) → start < n → j < n → (d : ℕ) × (d < n) × (j ≡ (start + d) % n)
  cover start j s h = elim (Bool-cases (ltb j start)) [
    | inl b ↦ (
      j + n - start,
      ground arith,
      ap (λ t. t) (sym (mod-eq_of_lt h))
          ∙ sym (mod-eq-sub-mod {n = n + j} {m = n} (omega arith) ∙ ap (λ t. t % n) (omega arith))
          ∙ ap (λ t. t % n) (ground arith),
    )
    | inr b ↦ (j - start, ground arith, sym (mod-eq_of_lt h) ∙ ap (λ t. t % n) (ground arith))
  ]

-- Schedule's choice: the loop ends within its fuel, and what it returns is the one-pass choice.
pub pick-first_min :
    (n c : ℕ) (tasks : ℕ → Task)
    → 0 < n
    → pick n c tasks ≡ some (first_min n n ((c + 1) % word_mod % n) 255 c tasks)
unfolding pick
pick-first_min n c tasks p =
    loop_first_min n tasks n (2 * n + 1) 0 start start 255 c p (ap (λ t. t % n) (add-zero start))
      (omega arith) (omega arith) (λ j h. inr (cover n tasks start j (mod-lt _ p) h))
  where
    start : ℕ
    start = (c + 1) % word_mod % n
