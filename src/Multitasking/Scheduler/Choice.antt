-- ===== src/Multitasking/Scheduler/Choice.antt =====
-- Which task the single pass of `Pick` chooses.
use native.Mathlib.Nat.{add-zero}
use implementing_os_and_syst.Base.{
  ℕ, zero, suc, ◌+◌, ◌%◌, ◌<◌, ◌≡◌, refl, sym, ap, subst, ◌∙◌, ◌⊎◌, inl, inr, true, false, arith,
  Bool-cases,
}
use implementing_os_and_syst.Machine.{signed_lt}
use implementing_os_and_syst.Multitasking.{Task}
use implementing_os_and_syst.Multitasking.Scheduler.{can_run, better}
use implementing_os_and_syst.Multitasking.Scheduler.Pick.{first_min, better_irrefl}

-- The task at `j` may not run, or its priority is strictly above that of the task at `r`.
abbrev pub Worse : (ℕ → Task) → ℕ → ℕ → Type 0
Worse tasks r j =
    (can_run (tasks j) ≡ false) ⊎ (signed_lt (tasks r).priority (tasks j).priority ≡ true)

-- What is chosen among the `k` positions from `pos` on: `next`, if no task there is better than
-- `highest`; and otherwise a task that is, with none better than itself, and with every task in front
-- of it strictly worse.
pub data Choice (tasks : ℕ → Task) (n k pos highest next r : ℕ) : Type 0 where
  stays :
      r ≡ next
      → ((d : ℕ) → d < k → better tasks highest ((pos + d) % n) ≡ false)
      → Choice tasks n k pos highest next r
  moves :
      (o : ℕ)
      → o < k
      → r ≡ (pos + o) % n
      → better tasks highest r ≡ true
      → ((d : ℕ) → d < k → better tasks (tasks r).priority ((pos + d) % n) ≡ false)
      → ((d : ℕ) → d < o → Worse tasks r ((pos + d) % n))
      → Choice tasks n k pos highest next r

-- A statement for the first position and for those behind it.
every {ℓ} :
    (P : ℕ → Type ℓ) (n k pos : ℕ)
    → P (pos % n)
    → ((d : ℕ) → d < k → P ((pos + 1 + d) % n))
    → (d : ℕ) → d < suc k
    → P ((pos + d) % n)
every P n k pos p ps zero h = subst P (ap (λ t. t % n) (sym (add-zero pos))) p
every P n k pos p ps (suc d) h =
    let e : pos + 1 + d ≡ pos + suc d = omega arith in
    subst P (ap (λ t. t % n) e) (ps d (omega arith))

better_trans :
    (tasks : ℕ → Task) (h i j : ℕ)
    → better tasks h i ≡ true
    → better tasks (tasks i).priority j ≡ true
    → (better tasks h j ≡ true)
      × (better tasks (tasks j).priority i ≡ false)
      × (signed_lt (tasks j).priority (tasks i).priority ≡ true)
unfolding better
better_trans tasks h i j p q = ground arith

passed_over :
    (tasks : ℕ → Task) (h i j : ℕ)
    → better tasks h i ≡ false
    → better tasks h j ≡ true
    → (better tasks (tasks j).priority i ≡ false) × Worse tasks j i
unfolding better
passed_over tasks h i j p q = ground arith

module _ (tasks : ℕ → Task) (n : ℕ) where
  take_first :
      (k pos highest next r : ℕ)
      → better tasks highest (pos % n) ≡ true
      → Choice tasks n k (pos + 1) (tasks (pos % n)).priority (pos % n) r
      → Choice tasks n (suc k) pos highest next r
  take_first k pos highest next r b (stays e none_better) =
      moves 0 (omega arith) (e ∙ ap (λ t. t % n) (sym (add-zero pos))) (rw e b)
        (every (λ j. better tasks (tasks r).priority j ≡ false) n k pos
          (rw e (better_irrefl tasks (pos % n))) (rw e none_better))
        (λ d h. elim h [ ])
  take_first k pos highest next r b (moves o h e b' least front) =
      let t = better_trans tasks highest (pos % n) r b b' in
      moves (suc o) (omega arith) (e ∙ ap (λ t. t % n) (omega arith)) t.0
        (every (λ j. better tasks (tasks r).priority j ≡ false) n k pos t.1 least)
        (every (λ j. Worse tasks r j) n o pos (inr t.2) front)

  pass_first :
      (k pos highest next r : ℕ)
      → better tasks highest (pos % n) ≡ false
      → Choice tasks n k (pos + 1) highest next r
      → Choice tasks n (suc k) pos highest next r
  pass_first k pos highest next r b (stays e none_better) =
      stays e (every (λ j. better tasks highest j ≡ false) n k pos b none_better)
  pass_first k pos highest next r b (moves o h e b' least front) =
      let t = passed_over tasks highest (pos % n) r b b' in
      moves (suc o) (omega arith) (e ∙ ap (λ t. t % n) (omega arith)) b'
        (every (λ j. better tasks (tasks r).priority j ≡ false) n k pos t.0 least)
        (every (λ j. Worse tasks r j) n o pos t.1 front)

  pub first_min-Choice :
      (k pos highest next : ℕ)
      → Choice tasks n k pos highest next (first_min k n pos highest next tasks)
  unfolding first_min
  first_min-Choice zero pos highest next = stays refl (λ d h. elim h [ ])
  first_min-Choice (suc k) pos highest next = elim (Bool-cases (better tasks highest (pos % n))) [
    | inl b ↦
        rw (b, first_min)
          (take_first k pos highest next _ b
            (first_min-Choice k (pos + 1) (tasks (pos % n)).priority (pos % n)))
    | inr b ↦
        rw (b, first_min)
          (pass_first k pos highest next _ b (first_min-Choice k (pos + 1) highest next))
  ]
