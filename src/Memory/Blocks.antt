-- ===== src/Memory/Blocks.antt =====
-- What the heap promises: a row of blocks, each with a header, that malloc splits and free joins.
use implementing_os_and_syst.Base.{
  ℕ, ◌+◌, ◌-◌, ◌≤◌, ◌≡◌, ◌≢◌, refl, ◌⊎◌, inl, Bool, true, false, not, ◌&&◌, List, [], ◌∷◌, ltb, leb,
  ◌==◌, if◌then◌else◌, arith,
}
use implementing_os_and_syst.Memory.{header}

pub record Block : Type 0 where
  pub size : ℕ
  pub allocated : Bool

-- The bytes that the blocks take, headers included.
abbrev pub span : List Block → ℕ
span [] = 0
span (b ∷ bs) = header + b.size + span bs

abbrev pub block_fits : ℕ → Block → Bool
block_fits size b = ltb size b.size && not b.allocated

-- The address of the first block that fits, in the row that starts at `a`; 0 if none does.
unfoldable pub fit : ℕ → ℕ → List Block → ℕ
fit size a [] = 0
fit size a (b ∷ bs) = if block_fits size b then a else fit size (a + header + b.size) bs

-- The first block that fits is taken: it is split if a header and at least one byte are left.
abbrev pub taken : ℕ → Block → List Block → List Block
taken size b bs =
    if leb (size + header + 1) b.size
    then record { size = size; allocated = true }
      ∷ record { size = b.size - size - header; allocated = false }
      ∷ bs
    else record b { allocated = true } ∷ bs

unfoldable pub allocate : ℕ → List Block → List Block
allocate size [] = []
allocate size (b ∷ bs) = if block_fits size b then taken size b bs else b ∷ allocate size bs

-- A free block takes in the one behind it, if that is free.
abbrev pub absorb : ℕ → List Block → List Block
absorb size [] = record { size = size; allocated = false } ∷ []
absorb size (n ∷ bs) =
    if n.allocated
    then record { size = size; allocated = false } ∷ n ∷ bs
    else record { size = size + (n.size + header); allocated = false } ∷ bs

-- The block at the address `c` is freed and joined with its free neighbours.
unfoldable pub release : ℕ → ℕ → List Block → List Block
release c a [] = []
release c a (b ∷ []) = if a == c then absorb b.size [] else b ∷ []
release c a (b ∷ n ∷ bs) =
    let rest = release c (a + header + b.size) (n ∷ bs) in
    if a == c
    then absorb b.size (n ∷ bs)
    else (if (a + header + b.size == c) && not b.allocated
        then absorb (b.size + (n.size + header)) bs
        else b ∷ rest)

-- A block starts at the address `c`.
pub data BlockAt (c : ℕ) : ℕ → List Block → Type 0 where
  here : {a : ℕ} {b : Block} {bs : List Block} → a ≡ c → BlockAt c a (b ∷ bs)
  there :
      {a : ℕ} {b : Block} {bs : List Block}
      → BlockAt c (a + header + b.size) bs
      → BlockAt c a (b ∷ bs)

-- No two neighbours are both free, and nothing in the row is free behind a free block `f`.
abbrev pub Joined : Bool → List Block → Type 0
Joined f [] = Unit
Joined f (b ∷ bs) = ((f ≡ false) ⊎ (b.allocated ≡ true)) × Joined (not b.allocated) bs

-- malloc takes no byte from the heap and gives it none.
pub span-allocate : (size : ℕ) (bs : List Block) → span (allocate size bs) ≡ span bs
unfolding allocate
span-allocate size [] = refl
span-allocate size (b ∷ bs) = ground (arith, span-allocate size bs)

span-absorb : (size : ℕ) (bs : List Block) → span (absorb size bs) ≡ header + size + span bs
span-absorb size [] = omega arith
span-absorb size (n ∷ bs) = ground arith

-- Nor does free.
pub span-release : (c a : ℕ) (bs : List Block) → span (release c a bs) ≡ span bs
unfolding release
span-release c a [] = refl
span-release c a (b ∷ []) = ground arith
span-release c a (b ∷ n ∷ bs) = ground (
  arith,
  span-release c (a + header + b.size) (n ∷ bs),
  span-absorb b.size (n ∷ bs),
  span-absorb (b.size + (n.size + header)) bs,
)

-- The block that fits lies in the row.
pub fit-ge : (size a : ℕ) (bs : List Block) → (fit size a bs ≡ 0) ⊎ (a ≤ fit size a bs)
unfolding fit
fit-ge size a [] = inl refl
fit-ge size a (b ∷ bs) = ground (arith, fit-ge size (a + header + b.size) bs)

-- Where the block neither is the freed one nor joins with it, free goes on behind it.
pub release-cons :
    (c a : ℕ) (b : Block) (bs : List Block)
    → a ≢ c
    → (a + header + b.size ≢ c) ⊎ (b.allocated ≡ true)
    → release c a (b ∷ bs) ≡ b ∷ release c (a + header + b.size) bs
unfolding release
release-cons c a b [] h k = ground arith
release-cons c a b (n ∷ bs) h k = ground arith

pub release_first :
    (c a : ℕ) (b : Block) (bs : List Block) → a ≡ c → release c a (b ∷ bs) ≡ absorb b.size bs
unfolding release
release_first c a b [] e = ground arith
release_first c a b (n ∷ bs) e = ground arith

pub release_second :
    (c a : ℕ) (b n : Block) (bs : List Block)
    → a + header + b.size ≡ c
    → b.allocated ≡ false
    → release c a (b ∷ n ∷ bs) ≡ absorb (b.size + (n.size + header)) bs
unfolding release
release_second c a b n bs e free = ground arith
