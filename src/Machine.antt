-- ===== src/Machine.antt =====
-- source/include/common/types.h and the CPUState of source/include/multitasking.h: machine words, the memory that
-- the task stacks and the saved register frames lie in, and block copies.
pub mod CpuState
pub mod Copy
use implementing_os_and_syst.Base.{ℕ, zero, suc, ◌+◌, ◌%◌, ◌^◌, Bool, ltb, ◌==◌, if◌then◌else◌}

-- A 32-bit word is its bit pattern, a number below 2 ^ 32, for `int` and `uint32_t` alike.
abbrev pub word_mod : ℕ
word_mod = 2 ^ 32

-- The pattern of the `int` -1, which is also 0xFFFFFFFF.
abbrev pub minus_one : ℕ
minus_one = 0xFFFF_FFFF

-- `<` of two `int` values by their patterns.
abbrev pub signed_lt : ℕ → ℕ → Bool
signed_lt a b = ltb ((a + 2 ^ 31) % word_mod) ((b + 2 ^ 31) % word_mod)

-- The word at each word-aligned byte address.
abbrev pub Memory : Type 0
Memory = ℕ → ℕ

abbrev pub write : Memory → ℕ → ℕ → Memory
write m a v b = if a == b then v else m b

-- Copies a number of words from one address to another, in ascending order.
pub copy_words : ℕ → ℕ → ℕ → Memory → Memory
copy_words zero src dst m = m
copy_words (suc n) src dst m = copy_words n (src + 4) (dst + 4) (write m dst (m src))

-- `*dst = *src` on two CPUStates.
pub copy_state : ℕ → ℕ → Memory → Memory
copy_state src dst m = copy_words 13 src dst m

-- The loop that copies `stack[4096]`.
pub copy_stack : ℕ → ℕ → Memory → Memory
copy_stack src dst m = copy_words 1024 src dst m
