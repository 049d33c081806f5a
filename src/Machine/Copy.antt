-- ===== src/Machine/Copy.antt =====
-- What a block copy writes, and what it leaves alone.
use implementing_os_and_syst.Base.{ℕ, zero, suc, ◌+◌, ◌*◌, ◌≤◌, ◌<◌, ◌≡◌, ◌∙◌, refl, ap, ◌⊎◌, arith}
use implementing_os_and_syst.Machine.{Memory, write, copy_words, copy_state, copy_stack}

-- The two ranges of `n` words share no word.
abbrev pub Apart : ℕ → ℕ → ℕ → Type 0
Apart n a b = (a + 4 * n ≤ b) ⊎ (b + 4 * n ≤ a)

-- An address outside of the destination keeps its word.
pub copy_words_outside :
    (n src dst : ℕ) (m : Memory) (a : ℕ)
    → (a < dst) ⊎ (dst + 4 * n ≤ a)
    → copy_words n src dst m a ≡ m a
unfolding copy_words
copy_words_outside zero src dst m a h = refl
copy_words_outside (suc n) src dst m a h =
    copy_words_outside n (src + 4) (dst + 4) (write m dst (m src)) a (omega arith) ∙ ground arith

-- The k-th word of the destination is the k-th word of the source.
pub copy_words_inside :
    (n src dst : ℕ) (m : Memory) (k : ℕ)
    → Apart n src dst
    → k < n
    → copy_words n src dst m (dst + 4 * k) ≡ m (src + 4 * k)
unfolding copy_words
copy_words_inside zero src dst m k h lt = absurd (omega arith)
copy_words_inside (suc n) src dst m zero h lt =
    copy_words_outside n (src + 4) (dst + 4) (write m dst (m src)) (dst + 4 * 0) (omega arith)
    ∙ ground arith
copy_words_inside (suc n) src dst m (suc k) h lt =
    ap (copy_words n (src + 4) (dst + 4) (write m dst (m src))) (omega arith)
    ∙ copy_words_inside n (src + 4) (dst + 4) (write m dst (m src)) k (omega arith) (omega arith)
    ∙ ground arith

-- The same for the two block copies of the program.
pub copy_stack_outside :
    (src dst : ℕ) (m : Memory) (a : ℕ) → (a < dst) ⊎ (dst + 4096 ≤ a) → copy_stack src dst m a ≡ m a
unfolding copy_stack
copy_stack_outside src dst m a h = copy_words_outside 1024 src dst m a (omega arith)

pub copy_stack_inside :
    (src dst : ℕ) (m : Memory) (k : ℕ)
    → Apart 1024 src dst
    → k < 1024
    → copy_stack src dst m (dst + 4 * k) ≡ m (src + 4 * k)
unfolding copy_stack
copy_stack_inside src dst m k h lt = copy_words_inside 1024 src dst m k h lt

pub copy_state_outside :
    (src dst : ℕ) (m : Memory) (a : ℕ) → (a < dst) ⊎ (dst + 52 ≤ a) → copy_state src dst m a ≡ m a
unfolding copy_state
copy_state_outside src dst m a h = copy_words_outside 13 src dst m a (omega arith)

pub copy_state_inside :
    (src dst : ℕ) (m : Memory) (k : ℕ)
    → Apart 13 src dst
    → k < 13
    → copy_state src dst m (dst + 4 * k) ≡ m (src + 4 * k)
unfolding copy_state
copy_state_inside src dst m k h lt = copy_words_inside 13 src dst m k h lt
