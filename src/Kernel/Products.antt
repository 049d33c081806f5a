-- ===== src/Kernel/Products.antt =====
-- The two loops of long_running_program of source/src/kernel.cpp, and what they add up to.
use implementing_os_and_syst.Base.{
  ℕ, zero, suc, ◌+◌, ◌-◌, ◌*◌, ◌/◌, ◌%◌, ◌^◌, ◌≤◌, ◌<◌, ◌≡◌, refl, ap, ◌∙◌, arith,
}
use native.Mathlib.Nat.{mul-le-mul}

-- The inner loop of long_running_program, `k` rounds from `j` on; the product is an `int`, the sum 64 bits wide.
pub add_products : ℕ → ℕ → ℕ → ℕ → ℕ
add_products zero i j result = result
add_products (suc k) i j result = add_products k i (j + 1) ((result + i * j % 2 ^ 32) % 2 ^ 64)

-- The outer loop, `k` rounds from `i` on.
pub add_rows : ℕ → ℕ → ℕ → ℕ → ℕ
add_rows zero n i result = result
add_rows (suc k) n i result = add_rows k n (i + 1) (add_products n i 0 result)

-- long_running_program, for an `n` whose products are no negative `int`.
pub long_running_program : ℕ → ℕ
long_running_program n = add_rows n n 0 0

-- The sum of the `k` numbers from `j` on.
abbrev pub sum_from : ℕ → ℕ → ℕ
sum_from zero j = 0
sum_from (suc k) j = j + sum_from k (j + 1)

twice_sum_from : (k j : ℕ) → 2 * sum_from k j + k ≡ k * (2 * j + k)
twice_sum_from zero j = omega arith
twice_sum_from (suc k) j = let rest = twice_sum_from k (j + 1) in omega (arith, rest)

-- No factor is above 46340, the largest one whose square is an `int`.
product_bound : (i j : ℕ) → i < 46341 → j < 46341 → i * j < 2 ^ 31
product_bound i j h k =
    let most : i * j ≤ 46340 * 46340 =
      mul-le-mul {n₂ = 46340} {m₂ = 46340} (omega arith) (omega arith) in
    omega (arith, most)

add_products_lem :
    (k i j result : ℕ)
    → i < 46341
    → j + k ≤ 46341
    → result + k * 2 ^ 31 < 2 ^ 63
    → (add_products k i j result ≡ result + i * sum_from k j)
      × (add_products k i j result ≤ result + k * 2 ^ 31)
unfolding add_products
add_products_lem zero i j result hi hj room = (omega arith, omega arith)
add_products_lem (suc k) i j result hi hj room =
    let small = product_bound i j hi (omega arith) in
    let next : (result + i * j % 2 ^ 32) % 2 ^ 64 ≡ result + i * j = omega (arith, small) in
    let rest =
      add_products_lem k i (j + 1) (result + i * j) hi (omega arith) (omega (arith, small)) in
    rw next (omega (arith, rest.0), omega (arith, rest.1, small))

add_rows_lem :
    (k n i result : ℕ)
    → n ≤ 46341
    → i + k ≤ 46341
    → result + k * (46341 * 2 ^ 31) < 2 ^ 63
    → add_rows k n i result ≡ result + sum_from k i * sum_from n 0
unfolding add_rows
add_rows_lem zero n i result hn hi room = omega arith
add_rows_lem (suc k) n i result hn hi room =
    let row = add_products_lem n i 0 result (omega arith) (omega arith) (omega arith) in
    let rest =
      add_rows_lem k n (i + 1) (add_products n i 0 result) hn (omega arith)
        (omega (arith, row.1)) in
    omega (arith, rest, row.0)

half_sum : (n : ℕ) → sum_from n 0 ≡ n * (n - 1) / 2
half_sum zero = refl
half_sum (suc n) =
    let twice = twice_sum_from (suc n) 0 in
    let half : 2 * sum_from (suc n) 0 ≡ suc n * n = omega (arith, twice) in
    let before : suc n - 1 ≡ n = omega arith in rw before (omega (arith, half))

-- long_running_program adds up i * j over all i and j below n: the square of n * (n - 1) / 2, for every n up
-- to 46341, the largest one whose products are values of an `int`.
pub long_running_program_lem :
    (n : ℕ) → n ≤ 46341 → long_running_program n ≡ n * (n - 1) / 2 * (n * (n - 1) / 2)
unfolding long_running_program
long_running_program_lem n h =
    let rows = add_rows_lem n n 0 0 h (omega arith) (omega arith) in
    let all : add_rows n n 0 0 ≡ sum_from n 0 * sum_from n 0 = omega (arith, rows) in
    all ∙ ap (λ t. t * t) (half_sum n)
