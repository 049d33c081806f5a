-- ===== src/Programs/World/Family.antt =====
-- How many tasks a body of source/src/kernel.cpp and its children can become.
use implementing_os_and_syst.Base.{
  ℕ, zero, suc, ◌+◌, ◌^◌, ◌≤◌, ◌<◌, ◌≡◌, ◌≢◌, refl, sym, subst, ap, ◌∙◌, inl, inr, ℕ_discrete, ◌==◌,
  if◌then◌else◌, arith,
}
use implementing_os_and_syst.Programs.{Program}
use implementing_os_and_syst.Programs.AtMost.{AtMost}
use implementing_os_and_syst.Programs.World.{World, next_programs}
use implementing_os_and_syst.Programs.World.Bound.{next_current, next_other, next_child}
use implementing_os_and_syst.Multitasking.{TaskManager}
use implementing_os_and_syst.Multitasking.Invariant.{IsValid}

-- The sum of `f` over the first `k` numbers.
abbrev pub sum : ℕ → (ℕ → ℕ) → ℕ
sum zero f = 0
sum (suc k) f = sum k f + f k

sum_ext : (k : ℕ) (f g : ℕ → ℕ) → ((i : ℕ) → i < k → f i ≡ g i) → sum k f ≡ sum k g
sum_ext zero f g h = refl
sum_ext (suc k) f g h =
    let rest = sum_ext k f g (λ i l. h i (omega arith)) in omega (arith, rest, h k (omega arith))

sum_change :
    (k i : ℕ) (f g : ℕ → ℕ)
    → i < k
    → ((j : ℕ) → j < k → j ≢ i → g j ≡ f j)
    → sum k g + f i ≡ sum k f + g i
sum_change zero i f g l h = absurd (omega arith)
sum_change (suc k) i f g l h = elim (ℕ_discrete i k) [
  | yes e ↦
      let rest = sum_ext k g f (λ j m. h j (omega arith) (omega arith)) in
      omega (arith, rest, ap f e, ap g e)
  | no ne ↦
      let rest = sum_change k i f g (omega arith) (λ j m. h j (omega arith)) in
      omega (arith, rest, h k (omega arith) (omega arith))
]

pub sum_at_least : (k : ℕ) (f : ℕ → ℕ) → ((i : ℕ) → 1 ≤ f i) → k ≤ sum k f
sum_at_least zero f h = omega arith
sum_at_least (suc k) f h = omega (arith, sum_at_least k f h, h k)

power_next : (a : ℕ) → 2 ^ (suc a) ≡ 2 ^ a + 2 ^ a
power_next a = omega arith

zero_is : (a : ℕ) → a ≤ 0 → 0 ≡ a
zero_is a h = omega arith

pub power_positive : (a : ℕ) → 1 ≤ 2 ^ a
power_positive zero = omega arith
power_positive (suc a) =
    let rest = power_positive a in subst (λ x. 1 ≤ x) (sym (power_next a)) (omega (arith, rest))

power_grows : (a b : ℕ) → a ≤ b → 2 ^ a ≤ 2 ^ b
power_grows a zero h = subst (λ x. 2 ^ x ≤ 1) (zero_is a h) (omega arith)
power_grows a (suc b) h = elim (ℕ_discrete a (suc b)) [
  | yes e ↦ subst (λ x. 2 ^ a ≤ 2 ^ x) e (omega arith)
  | no ne ↦
      let rest = power_grows a b (omega arith) in
      subst (λ x. 2 ^ a ≤ x) (sym (power_next b)) (omega (arith, rest))
]

-- The table is valid, and the tasks may become no more than `bound` with the forks that they have left.
pub record IsFamily (bound : ℕ) (w : World) : Type 0 where
  pub valid : IsValid w.manager
  pub left : ℕ → ℕ
  pub each : (i : ℕ) → i < w.manager.num_tasks → AtMost (left i) (w.programs i)
  pub total : sum w.manager.num_tasks (λ i. 2 ^ left i) ≤ bound

-- The forks left behind an action that makes no task, and behind one that does.
abbrev pub with_left : ℕ → ℕ → (ℕ → ℕ) → ℕ → ℕ
with_left c n left i = if i == c then n else left i

abbrev pub moved : World → Program → TaskManager → World
moved w q m' = record { manager = m'; programs = next_programs w.manager m' q w.programs }

pub alone_step :
    (bound n : ℕ) (w : World) (q : Program) (m' : TaskManager) (f : IsFamily bound w)
    → w.manager.current_task < w.manager.num_tasks
    → IsValid m'
    → m'.num_tasks ≡ w.manager.num_tasks
    → AtMost n q
    → n ≤ f.left w.manager.current_task
    → IsFamily bound (moved w q m')
alone_step bound n w q m' f inside valid same rest fewer =
    let c = w.manager.current_task in
    let changed =
      sum_change w.manager.num_tasks c (λ i. 2 ^ f.left i) (λ i. 2 ^ with_left c n f.left i) inside
        (λ j l ne. ap (λ x. 2 ^ x) (ground arith)) in
    record {
      valid = valid;
      left = with_left c n f.left;
      each = λ i l. elim (ℕ_discrete i c) [
        | yes e ↦
            subst (λ p. AtMost (with_left c n f.left i) p)
              (sym (next_current w.manager m' q w.programs i e))
              (subst (λ x. AtMost x q) (ground arith) rest)
        | no ne ↦
            subst (λ p. AtMost (with_left c n f.left i) p)
              (sym (next_other w.manager m' q w.programs i ne (inr same)))
              (subst (λ x. AtMost x (w.programs i)) (ground arith) (f.each i (omega arith)))
      ];
      total =
          let less = power_grows n (f.left c) fewer in
          let own : 2 ^ with_left c n f.left c ≡ 2 ^ n = ap (λ x. 2 ^ x) (ground arith) in
          let size = ap (λ k. sum k (λ i. 2 ^ with_left c n f.left i)) same in
          omega (arith, changed, less, own, size, f.total);
    }

-- A fork that makes a task: parent and child have one fork less each.
pub child_step :
    (bound n : ℕ) (w : World) (q : Program) (m' : TaskManager) (f : IsFamily bound w)
    → w.manager.current_task < w.manager.num_tasks
    → IsValid m'
    → m'.num_tasks ≡ w.manager.num_tasks + 1
    → AtMost n q
    → n + 1 ≤ f.left w.manager.current_task
    → IsFamily bound (moved w q m')
child_step bound n w q m' f inside valid more rest fewer =
    let c = w.manager.current_task in
    let k = w.manager.num_tasks in
    let left = with_left k n (with_left c n f.left) in
    record {
      valid = valid;
      left = left;
      each = λ i l. elim (ℕ_discrete i c) [
        | yes e ↦
            subst (λ p. AtMost (left i) p) (sym (next_current w.manager m' q w.programs i e))
              (subst (λ x. AtMost x q) (ground arith) rest)
        | no ne ↦ elim (ℕ_discrete i k) [
          | yes e ↦
              subst (λ p. AtMost (left i) p)
                (sym (
                  ap (next_programs w.manager m' q w.programs) e
                  ∙ next_child w.manager m' q w.programs inside (omega arith)))
                (subst (λ x. AtMost x q) (ground arith) rest)
          | no away ↦
              subst (λ p. AtMost (left i) p)
                (sym (next_other w.manager m' q w.programs i ne (inl away)))
                (subst (λ x. AtMost x (w.programs i)) (ground arith) (f.each i (omega arith)))
        ]
      ];
      total =
          let below =
            sum_ext k (λ i. 2 ^ left i) (λ i. 2 ^ with_left c n f.left i)
              (λ i l. ap (λ x. 2 ^ x) (ground arith)) in
          let changed =
            sum_change k c (λ i. 2 ^ f.left i) (λ i. 2 ^ with_left c n f.left i) inside
              (λ j l ne. ap (λ x. 2 ^ x) (ground arith)) in
          let own : 2 ^ with_left c n f.left c ≡ 2 ^ n = ap (λ x. 2 ^ x) (ground arith) in
          let new : 2 ^ left k ≡ 2 ^ n = ap (λ x. 2 ^ x) (ground arith) in
          let less = power_grows (suc n) (f.left c) (omega arith) in
          let double = power_next n in
          let next_size : m'.num_tasks ≡ suc k = omega (arith, more) in
          let size : sum m'.num_tasks (λ i. 2 ^ left i) ≡ sum k (λ i. 2 ^ left i) + 2 ^ left k =
            ap (λ x. sum x (λ i. 2 ^ left i)) next_size in
          omega (arith, below, changed, own, new, less, double, size, f.total);
    }
