-- ===== src/Memory/Chain.antt =====
-- The row of blocks that a chain of headers in memory stands for.
use implementing_os_and_syst.Base.{
  ℕ, zero, suc, ◌+◌, ◌≤◌, ◌<◌, ◌≡◌, ◌≢◌, ◌∙◌, List, [], ◌∷◌, some, length, arith,
}
use implementing_os_and_syst.Memory.{MemoryChunk, Headers, header, put, find_chunk}
use implementing_os_and_syst.Memory.Blocks.{Block, span, fit}

-- The address of the first of the blocks that begin at `a`; null if there is none.
abbrev pub start_of : ℕ → List Block → ℕ
start_of a [] = 0
start_of a (b ∷ bs) = a

-- The header of a block at `a` behind `prev` and in front of `bs`.
abbrev pub header_of : ℕ → ℕ → Block → List Block → MemoryChunk
header_of prev a b bs = record {
  next = start_of (a + header + b.size) bs;
  prev = prev;
  allocated = b.allocated;
  size = b.size;
}

-- From `a` on the headers `h` describe the blocks, linked both ways, without gaps, and ended by null.
abbrev pub Chain : Headers → ℕ → ℕ → List Block → Type 0
Chain h prev a [] = Unit
Chain h prev a (b ∷ bs) = (h a ≡ header_of prev a b bs) × Chain h a (a + header + b.size) bs

-- Headers outside of the row do not matter.
pub Chain-frame :
    (h h' : Headers) (prev a : ℕ) (bs : List Block)
    → ((x : ℕ) → a ≤ x → x < a + span bs → h' x ≡ h x)
    → Chain h prev a bs
    → Chain h' prev a bs
Chain-frame h h' prev a [] same c = tt
Chain-frame h h' prev a (b ∷ bs) same c = (
  same a (omega arith) (omega arith) ∙ c.0,
  Chain-frame h h' a (a + header + b.size) bs (λ x lo hi. same x (omega arith) (omega arith)) c.1,
)

-- The search of malloc ends when the fuel exceeds the number of blocks, at the first that fits.
pub find_chunk_lem :
    (fuel size : ℕ) (h : Headers) (prev a : ℕ) (bs : List Block)
    → 0 < a
    → length bs < fuel
    → Chain h prev a bs
    → find_chunk fuel size (start_of a bs) h ≡ some (fit size a bs)
unfolding find_chunk fit
find_chunk_lem zero size h prev a bs p f c = absurd (omega arith)
find_chunk_lem (suc fuel) size h prev a [] p f c = ground arith
find_chunk_lem (suc fuel) size h prev a (b ∷ bs) p f c = ground (
  arith,
  c.0,
  find_chunk_lem fuel size h a (a + header + b.size) bs (omega arith) (omega arith) c.1,
)

pub put_self : (a : ℕ) (k : MemoryChunk) (h : Headers) → put a k h a ≡ k
put_self a k h = ground arith

pub put_ne : (a : ℕ) (k : MemoryChunk) (h : Headers) (x : ℕ) → x ≢ a → put a k h x ≡ h x
put_ne a k h x ne = ground arith

-- The headers `h'` describe the row `bs`, and those in front of `a` are as in `h`.
abbrev pub Becomes : ℕ → Headers → Headers → ℕ → List Block → Type 0
Becomes a h h' prev bs = Chain h' prev a bs × ((x : ℕ) → x < a → h' x ≡ h x)
