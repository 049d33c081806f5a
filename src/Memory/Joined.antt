-- ===== src/Memory/Joined.antt =====
-- Free neighbours in the row of blocks, under malloc and free.
use implementing_os_and_syst.Base.{
  ℕ, ◌+◌, ◌<◌, ◌≡◌, ◌≢◌, refl, sym, ap, subst, ◌∙◌, ◌⊎◌, inl, inr, Bool, true, false, not, ◌&&◌,
  List, [], ◌∷◌, leb, ◌==◌, Bool-cases, arith,
}
use implementing_os_and_syst.Memory.{header}
use implementing_os_and_syst.Memory.Blocks.{
  Block, fit, fit-ge, block_fits, taken, allocate, absorb, release, release-cons, Joined,
}

Joined-rw : (x y : Bool) (bs : List Block) → x ≡ y → Joined (not x) bs → Joined (not y) bs
Joined-rw x y bs e j = subst (λ z. Joined (not z) bs) e j

absorb-Joined : (size : ℕ) (bs : List Block) → Joined false bs → Joined false (absorb size bs)
absorb-Joined size [] j = (inl refl, tt)
absorb-Joined size (n ∷ bs) j = elim (Bool-cases n.allocated) [
  | inl e ↦ rw e (inl refl, (inr refl, Joined-rw n.allocated true bs e j.1))
  | inr e ↦ rw e (inl refl, Joined-rw n.allocated false bs e j.1)
]

Joined-weaken : (f : Bool) (bs : List Block) → Joined f bs → Joined false bs
Joined-weaken f [] j = tt
Joined-weaken f (b ∷ bs) j = (inl refl, j.1)

taken-Joined :
    (size : ℕ) (f : Bool) (b : Block) (bs : List Block)
    → b.allocated ≡ false
    → Joined f (b ∷ bs)
    → Joined f (taken size b bs)
taken-Joined size f b bs e j = elim (Bool-cases (leb (size + header + 1) b.size)) [
  | inl s ↦ rw s (inr refl, (inl refl, Joined-rw b.allocated false bs e j.1))
  | inr s ↦ rw s (inr refl, Joined-weaken (not b.allocated) bs j.1)
]

-- malloc leaves no two free neighbours where there were none.
pub allocate-Joined :
    (size : ℕ) (f : Bool) (bs : List Block) → Joined f bs → Joined f (allocate size bs)
unfolding allocate
allocate-Joined size f [] j = tt
allocate-Joined size f (b ∷ bs) j = elim (Bool-cases (block_fits size b)) [
  | inl e ↦ rw (e, allocate) (taken-Joined size f b bs (ground arith) j)
  | inr e ↦ rw (e, allocate) (j.0, allocate-Joined size (not b.allocated) bs j.1)
]

-- Nor does free leave any.
pub release-Joined :
    (c a : ℕ) (f : Bool) (bs : List Block)
    → (f ≡ false) ⊎ (a ≢ c)
    → Joined f bs
    → Joined f (release c a bs)
unfolding release
release-Joined c a f [] h j = tt
release-Joined c a f (b ∷ []) h j = elim (Bool-cases (a == c)) [
  | inl e ↦ rw (e, release) (ground arith, tt)
  | inr e ↦ rw (e, release) j
]
release-Joined c a f (b ∷ n ∷ bs) h j = elim (Bool-cases (a == c)) [
  | inl e ↦
      let f0 : f ≡ false = ground arith in
      rw (e, f0, release)
        (absorb-Joined b.size (n ∷ bs) (Joined-weaken (not b.allocated) (n ∷ bs) j.1))
  | inr e ↦ elim (Bool-cases ((a + header + b.size == c) && not b.allocated)) [
    | inl g ↦
        let f0 : f ≡ false = ground arith in
        rw (e, g, f0, release)
          (absorb-Joined (b.size + (n.size + header)) bs (Joined-weaken (not n.allocated) bs j.1.1))
    | inr g ↦
        rw (e, g, release)
          (
            j.0,
            release-Joined c (a + header + b.size) (not b.allocated) (n ∷ bs) (ground arith) j.1,
          )
  ]
]

-- The first block behind a free one is not the one that fits.
fit-first : (size a : ℕ) (bs : List Block) → 0 < a → Joined true bs → fit size a bs ≢ a
unfolding fit
fit-first size a [] p j = omega arith
fit-first size a (n ∷ bs) p j = ground (arith, fit-ge size (a + header + n.size) bs)

absorb-Joined' :
    (b : Block) (bs : List Block)
    → b.allocated ≡ false
    → Joined (not b.allocated) bs
    → absorb b.size bs ≡ b ∷ bs
absorb-Joined' b [] e j = ground arith
absorb-Joined' b (n ∷ bs) e j = ground arith

-- The freed block is the one that was taken, and it is joined with the rest that was split off.
release-taken :
    (size a : ℕ) (b : Block) (bs : List Block)
    → b.allocated ≡ false
    → size < b.size
    → Joined (not b.allocated) bs
    → release a a (taken size b bs) ≡ b ∷ bs
unfolding release
release-taken size a b bs e lt j = elim (Bool-cases (leb (size + header + 1) b.size)) [
  | inl s ↦ rw s (ground arith)
  | inr s ↦ rw s (whole bs j)
]
  where
    whole :
        (bs : List Block)
        → Joined (not b.allocated) bs
        → release a a (record b { allocated = true } ∷ bs) ≡ b ∷ bs
    whole [] j = ground arith
    whole (n ∷ bs) j = ground arith

-- free undoes malloc: in a heap with no two free neighbours, the row of blocks after malloc and the
-- free of the block that it found is the row before.
pub release-allocate :
    (size a : ℕ) (f : Bool) (bs : List Block)
    → 0 < a
    → Joined f bs
    → fit size a bs ≢ 0
    → release (fit size a bs) a (allocate size bs) ≡ bs
unfolding fit allocate
release-allocate size a f [] pos j ne = absurd (ne refl)
release-allocate size a f (b ∷ bs) pos j ne = elim (Bool-cases (block_fits size b)) [
  | inl e ↦ rw e (release-taken size a b bs (ground arith) (ground arith) j.1)
  | inr e ↦ rw e (
      behind (rw e at ne)
        (λ q. release-allocate size (a + header + b.size) (not b.allocated) bs (omega arith) j.1 q))
]
  where
    behind :
        fit size (a + header + b.size) bs ≢ 0
        → (fit size (a + header + b.size) bs ≢ 0
            → release (fit size (a + header + b.size) bs) (a + header + b.size) (allocate size bs)
              ≡ bs)
        → release (fit size (a + header + b.size) bs) a (b ∷ allocate size bs) ≡ b ∷ bs
    behind ne' ih =
        release-cons (fit size (a + header + b.size) bs) a b (allocate size bs)
          (ground (arith, fit-ge size (a + header + b.size) bs))
          (elim (Bool-cases b.allocated) [
            | inl t ↦ inr t
            | inr t ↦ inl (λ q.
                fit-first size (a + header + b.size) bs (omega arith)
                  (Joined-rw b.allocated false bs t j.1) (sym q))
          ])
        ∙ ap (◌∷◌ b) (ih ne')
