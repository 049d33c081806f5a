-- ===== src/Kernel/Search.antt =====
-- binarySearch and linearSearch of source/src/kernel.cpp. `arr` gives the element at each index; the elements,
-- and `x`, are taken with 2 ^ 31 added, so that the order of `int` is that of ℕ. A result of -1 is `none`.
use implementing_os_and_syst.Base.{
  ℕ, zero, suc, ◌+◌, ◌-◌, ◌/◌, ◌≤◌, ◌<◌, ◌≡◌, ◌≢◌, subst, ltb, ◌==◌, if◌then◌else◌, arith, Option,
  none, some, Bool-cases, ◌⊎◌, inl, inr, dec_lt, ℕ_discrete,
}

-- The while loop, with `high` one more than in the source, so that it is never negative: the loop
-- runs while `low < high`. The first argument is fuel.
unfoldable pub binary_loop : ℕ → (ℕ → ℕ) → ℕ → ℕ → ℕ → Option ℕ
binary_loop zero arr x low high = none
binary_loop (suc k) arr x low high =
    let mid = low + (high - 1 - low) / 2 in
    let right = binary_loop k arr x (mid + 1) high in
    let left = binary_loop k arr x low mid in
    if ltb low high
    then if arr mid == x then some mid else if ltb (arr mid) x then right else left
    else none

-- Every round of the loop makes `high - low` smaller: `n` rounds are enough.
unfoldable pub binary_search : (ℕ → ℕ) → ℕ → ℕ → Option ℕ
binary_search arr n x = binary_loop n arr x 0 n

-- The for loop of linearSearch, `k` elements from `i` on.
unfoldable pub linear_loop : ℕ → (ℕ → ℕ) → ℕ → ℕ → Option ℕ
linear_loop zero arr x i = none
linear_loop (suc k) arr x i =
    let rest = linear_loop k arr x (i + 1) in if arr i == x then some i else rest

unfoldable pub linear_search : (ℕ → ℕ) → ℕ → ℕ → Option ℕ
linear_search arr n x = linear_loop n arr x 0

-- `arr` does not fall in its first `n` elements.
abbrev pub IsSorted : (ℕ → ℕ) → ℕ → Type 0
IsSorted arr n = (i j : ℕ) → i ≤ j → j < n → arr i ≤ arr j

-- What a search for `x` in the elements from `low` to `high` promises: an index of `x`, or that it is
-- none of them.
abbrev pub Finds : (ℕ → ℕ) → ℕ → ℕ → ℕ → Option ℕ → Type 0
Finds arr x low high none = (i : ℕ) → low ≤ i → i < high → arr i ≢ x
Finds arr x low high (some i) = (low ≤ i) × (i < high) × (arr i ≡ x)

Finds-widen :
    (r : Option ℕ) (arr : ℕ → ℕ) (x low high a b : ℕ)
    → low ≤ a
    → b ≤ high
    → ((i : ℕ) → low ≤ i → i < high → (i < a) ⊎ (b ≤ i) → arr i ≢ x)
    → Finds arr x a b r
    → Finds arr x low high r
Finds-widen none arr x low high a b p q o h = λ i l u. elim (dec_lt i a) [
  | yes c ↦ o i l u (inl c)
  | no c ↦ elim (dec_lt i b) [ yes d ↦ h i (omega arith) d | no d ↦ o i l u (inr (omega arith)) ]
]
Finds-widen (some i) arr x low high a b p q o h = (omega (arith, h.0), omega (arith, h.1), h.2)

binary_loop_lem :
    (k : ℕ) (arr : ℕ → ℕ) (n x low high : ℕ)
    → IsSorted arr n
    → high ≤ n
    → high ≤ low + k
    → Finds arr x low high (binary_loop k arr x low high)
unfolding binary_loop
binary_loop_lem zero arr n x low high s h f = λ i a b e. omega arith
binary_loop_lem (suc k) arr n x low high s h f =
    let mid = low + (high - 1 - low) / 2 in
    elim (Bool-cases (ltb low high)) [
      | inr o ↦ rw o (λ i a b e. ground (arith, o))
      | inl r ↦ rw r (elim (Bool-cases (arr mid == x)) [
        | inl e ↦ rw e (omega arith, ground (arith, r), ground (arith, e))
        | inr e ↦ rw e (elim (Bool-cases (ltb (arr mid) x)) [
          | inl t ↦ rw t (
              Finds-widen _ arr x low high (mid + 1) high (omega arith) (omega arith)
                (λ i l u o q. elim o [
                  | inl v ↦ ground (arith, t, q, e, s i mid (omega arith) (ground (arith, r)))
                  | inr v ↦ omega arith
                ])
                (binary_loop_lem k arr n x (mid + 1) high s h (omega arith)))
          | inr t ↦ rw t (
              Finds-widen _ arr x low high low mid (omega arith) (ground (arith, r))
                (λ i l u o q. elim o [
                  | inl v ↦ omega arith
                  | inr v ↦ ground (arith, t, q, e, s mid i v (omega arith))
                ])
                (binary_loop_lem k arr n x low mid s (ground (arith, r)) (ground (arith, r))))
        ])
      ])
    ]

-- binarySearch on a sorted array returns the index of an element equal to `x`, or -1 when no element
-- is equal to it.
pub binary_search-Finds :
    (arr : ℕ → ℕ) (n x : ℕ) → IsSorted arr n → Finds arr x 0 n (binary_search arr n x)
unfolding binary_search
binary_search-Finds arr n x s = binary_loop_lem n arr n x 0 n s (omega arith) (omega arith)

-- What linearSearch promises: the first index of `x`, or that `x` is not there.
abbrev pub FindsFirst : (ℕ → ℕ) → ℕ → ℕ → ℕ → Option ℕ → Type 0
FindsFirst arr x low high none = (i : ℕ) → low ≤ i → i < high → arr i ≢ x
FindsFirst arr x low high (some i) =
    (low ≤ i) × (i < high) × (arr i ≡ x) × ((j : ℕ) → low ≤ j → j < i → arr j ≢ x)

FindsFirst-step :
    (r : Option ℕ) (arr : ℕ → ℕ) (x low high : ℕ)
    → arr low ≢ x
    → FindsFirst arr x (low + 1) high r
    → FindsFirst arr x low high r
FindsFirst-step none arr x low high o h =
    λ i l u. elim (ℕ_discrete i low) [ yes e ↦ rw e o | no d ↦ h i (omega arith) u ]
FindsFirst-step (some i) arr x low high o h = (
  omega (arith, h.0),
  h.1,
  h.2,
  λ j l u. elim (ℕ_discrete j low) [ yes e ↦ rw e o | no d ↦ h.3 j (omega arith) u ],
)

linear_loop_lem :
    (k : ℕ) (arr : ℕ → ℕ) (x i : ℕ) → FindsFirst arr x i (i + k) (linear_loop k arr x i)
unfolding linear_loop
linear_loop_lem zero arr x i = λ j l u e. omega arith
linear_loop_lem (suc k) arr x i = elim (Bool-cases (arr i == x)) [
  | inl t ↦ rw t (omega arith, omega arith, ground (arith, t), λ j l u e. omega arith)
  | inr t ↦ rw t (
      FindsFirst-step _ arr x i (i + suc k) (λ e. ground (arith, t, e))
        (subst (λ h. FindsFirst arr x (i + 1) h (linear_loop k arr x (i + 1))) (omega arith)
          (linear_loop_lem k arr x (i + 1))))
]

-- linearSearch on any array returns the first index of an element equal to `x`, or -1 when no element
-- is equal to it.
pub linear_search-FindsFirst :
    (arr : ℕ → ℕ) (n x : ℕ) → FindsFirst arr x 0 n (linear_search arr n x)
unfolding linear_search
linear_search-FindsFirst arr n x =
    subst (λ h. FindsFirst arr x 0 h (linear_loop n arr x 0)) (omega arith)
      (linear_loop_lem n arr x 0)
