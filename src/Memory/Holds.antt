-- ===== src/Memory/Holds.antt =====
-- Which bytes a block owns, and what malloc and free do to the blocks that are in use.
use implementing_os_and_syst.Base.{
  ℕ, ◌+◌, ◌≤◌, ◌<◌, ◌≡◌, ◌≢◌, refl, sym, ap, subst, ◌∙◌, ◌⊎◌, inl, inr, true, false, false≢true,
  not, ◌&&◌, List, [], ◌∷◌, leb, ◌==◌, Bool-cases, arith,
}
use implementing_os_and_syst.Memory.{header}
use implementing_os_and_syst.Memory.Blocks.{
  Block, span, fit, block_fits, allocate, absorb, release, release_first, release_second, BlockAt,
  here, there,
}

-- The block `b` has its header at the address `c`.
pub data Holds (c : ℕ) (k : Block) : ℕ → List Block → Type 0 where
  first : {a : ℕ} {b : Block} {bs : List Block} → a ≡ c → b ≡ k → Holds c k a (b ∷ bs)
  later :
      {a : ℕ} {b : Block} {bs : List Block}
      → Holds c k (a + header + b.size) bs
      → Holds c k a (b ∷ bs)

pub Holds-BlockAt : {c : ℕ} {k : Block} {a : ℕ} {bs : List Block} → Holds c k a bs → BlockAt c a bs
Holds-BlockAt (first e _) = here e
Holds-BlockAt (later t) = there (Holds-BlockAt t)

pub Holds-in :
    {c : ℕ} {k : Block} {a : ℕ} {bs : List Block}
    → Holds c k a bs
    → (a ≤ c) × (c + header + k.size ≤ a + span bs)
Holds-in (first e q) = (omega arith, ground arith)
Holds-in (later t) = (omega (arith, (Holds-in t).0), omega (arith, (Holds-in t).1))

-- Two blocks of a row at different addresses share no byte, headers included.
pub Holds-apart :
    {c d : ℕ} {k l : Block} {a : ℕ} {bs : List Block}
    → Holds c k a bs
    → Holds d l a bs
    → c ≢ d
    → (c + header + k.size ≤ d) ⊎ (d + header + l.size ≤ c)
Holds-apart (first e _) (first e' _) ne = absurd (ne (sym e ∙ e'))
Holds-apart (first e q) (later t) ne = inl (ground (arith, (Holds-in t).0))
Holds-apart (later t) (first e q) ne = inr (ground (arith, (Holds-in t).0))
Holds-apart (later t) (later t') ne = Holds-apart t t' ne

-- One address holds one block.
pub Holds-unique :
    {c d : ℕ} {k l : Block} {a : ℕ} {bs : List Block}
    → Holds c k a bs
    → Holds d l a bs
    → c ≡ d
    → k ≡ l
Holds-unique (first _ q) (first _ q') e = sym q ∙ q'
Holds-unique (first e' _) (later t) e = absurd (omega (arith, (Holds-in t).0))
Holds-unique (later t) (first e' _) e = absurd (omega (arith, (Holds-in t).0))
Holds-unique (later t) (later t') e = Holds-unique t t' e

-- The block that fits is free and larger than asked for.
pub fit-Holds :
    (size a : ℕ) (bs : List Block)
    → fit size a bs ≢ 0
    → (k : Block) × Holds (fit size a bs) k a bs × (k.allocated ≡ false) × (size < k.size)
unfolding fit
fit-Holds size a [] ne = absurd (ne refl)
fit-Holds size a (b ∷ bs) ne = elim (Bool-cases (block_fits size b)) [
  | inl e ↦ rw e (b, first refl refl, ground arith, ground arith)
  | inr e ↦ rw e (further (fit-Holds size (a + header + b.size) bs (rw e at ne)))
]
  where
    further :
        {r : ℕ}
        → (k : Block) × Holds r k (a + header + b.size) bs × (k.allocated ≡ false) × (size < k.size)
        → (k : Block) × Holds r k a (b ∷ bs) × (k.allocated ≡ false) × (size < k.size)
    further (k, h, f, lt) = (k, later h, f, lt)

-- After malloc the block at that address is allocated and has at least the bytes asked for.
pub allocate-Holds :
    (size a : ℕ) (bs : List Block)
    → fit size a bs ≢ 0
    → (k : Block) × Holds (fit size a bs) k a (allocate size bs)
      × (k.allocated ≡ true)
      × (size ≤ k.size)
unfolding fit allocate
allocate-Holds size a [] ne = absurd (ne refl)
allocate-Holds size a (b ∷ bs) ne = elim (Bool-cases (block_fits size b)) [
  | inl e ↦ elim (Bool-cases (leb (size + header + 1) b.size)) [
    | inl s ↦
        rw (e, s) (record { size = size; allocated = true }, first refl refl, refl, omega arith)
    | inr s ↦ rw (e, s) (record b { allocated = true }, first refl refl, refl, ground arith)
  ]
  | inr e ↦ rw e (further (allocate-Holds size (a + header + b.size) bs (rw e at ne)))
]
  where
    further :
        {r : ℕ}
        → (k : Block) × Holds r k (a + header + b.size) (allocate size bs)
          × (k.allocated ≡ true)
          × (size ≤ k.size)
        → (k : Block) × Holds r k a (b ∷ allocate size bs) × (k.allocated ≡ true) × (size ≤ k.size)
    further (k, h, f, le) = (k, later h, f, le)

-- A block in use stays where it is, with its size, over malloc.
pub allocate_keeps :
    (size : ℕ) {c : ℕ} {k : Block} (a : ℕ) (bs : List Block)
    → k.allocated ≡ true
    → Holds c k a bs
    → Holds c k a (allocate size bs)
unfolding allocate
allocate_keeps size a [] used h = h
allocate_keeps size {c} {k} a (b ∷ bs) used (first e q) =
    let n : block_fits size b ≡ false = ground arith in rw n (first e q)
allocate_keeps size {c} {k} a (b ∷ bs) used (later t) = elim (Bool-cases (block_fits size b)) [
  | inl e ↦ elim (Bool-cases (leb (size + header + 1) b.size)) [
    | inl s ↦ rw (e, s) (later (later (moved (ground arith) t)))
    | inr s ↦ rw (e, s) (later t)
  ]
  | inr e ↦ rw e (later (allocate_keeps size (a + header + b.size) bs used t))
]
  where
    moved : {x y : ℕ} → x ≡ y → Holds c k x bs → Holds c k y bs
    moved e t = subst (λ z. Holds c k z bs) e t

absorb_keeps :
    {c : ℕ} {k : Block} {a : ℕ} (n x : ℕ) (bs : List Block)
    → k.allocated ≡ true
    → a + header + n ≡ x
    → Holds c k x bs
    → Holds c k a (absorb n bs)
absorb_keeps n x [] used e h = elim h [ ]
absorb_keeps {c} {k} {a} n x (b ∷ bs) used e h = elim (Bool-cases b.allocated) [
  | inl t ↦ subst (Holds c k a) (sym (kept t)) (later (subst (λ z. Holds c k z (b ∷ bs)) (sym e) h))
  | inr t ↦ subst (Holds c k a) (sym (joined t)) (later (further t h))
]
  where
    kept : b.allocated ≡ true → absorb n (b ∷ bs) ≡ record { size = n; allocated = false } ∷ b ∷ bs
    kept t = ground arith

    joined :
        b.allocated ≡ false
        → absorb n (b ∷ bs) ≡ record { size = n + (b.size + header); allocated = false } ∷ bs
    joined t = ground arith

    further :
        b.allocated ≡ false
        → Holds c k x (b ∷ bs)
        → Holds c k (a + header + (n + (b.size + header))) bs
    further t (first _ q) = absurd (false≢true (sym t ∙ ap (λ (z : Block). z.allocated) q ∙ used))
    further t (later h) = subst (λ z. Holds c k z bs) (omega arith) h

-- A block in use, other than the one freed, stays where it is, with its size, over free.
pub release_keeps :
    (c : ℕ) {d : ℕ} {k : Block} (a : ℕ) (bs : List Block)
    → k.allocated ≡ true
    → d ≢ c
    → Holds d k a bs
    → Holds d k a (release c a bs)
unfolding release
release_keeps c a [] used ne h = h
release_keeps c {d} {k} a (b ∷ []) used ne h = elim (Bool-cases (a == c)) [
  | inl e ↦
      subst (Holds d k a) (sym (release_first c a b [] (ground arith))) (lone h (ground arith))
  | inr e ↦ rw e h
]
  where
    lone : Holds d k a (b ∷ []) → a ≡ c → Holds d k a (absorb b.size [])
    lone (first e _) e' = absurd (ne (sym e ∙ e'))
    lone (later h) e' = elim h [ ]
release_keeps c {d} {k} a (b ∷ n ∷ bs) used ne h = elim (Bool-cases (a == c)) [
  | inl e ↦
      subst (Holds d k a) (sym (release_first c a b (n ∷ bs) (ground arith)))
        (head h (ground arith))
  | inr e ↦ elim (Bool-cases ((a + header + b.size == c) && not b.allocated)) [
    | inl g ↦
        subst (Holds d k a) (sym (release_second c a b n bs (ground arith) (ground arith)))
          (second h (ground arith) (ground arith))
    | inr g ↦ rw (e, g) (third h (λ t. release_keeps c (a + header + b.size) (n ∷ bs) used ne t))
  ]
]
  where
    head : Holds d k a (b ∷ n ∷ bs) → a ≡ c → Holds d k a (absorb b.size (n ∷ bs))
    head (first e _) e' = absurd (ne (sym e ∙ e'))
    head (later h) e' = absorb_keeps b.size (a + header + b.size) (n ∷ bs) used refl h

    second :
        Holds d k a (b ∷ n ∷ bs)
        → a + header + b.size ≡ c
        → b.allocated ≡ false
        → Holds d k a (absorb (b.size + (n.size + header)) bs)
    second (first _ q) e free =
        absurd (false≢true (sym free ∙ ap (λ (z : Block). z.allocated) q ∙ used))
    second (later (first e' _)) e free = absurd (ne (sym e' ∙ e))
    second (later (later h)) e free =
        absorb_keeps (b.size + (n.size + header)) (a + header + b.size + header + n.size) bs used
          (omega arith) h

    third :
        Holds d k a (b ∷ n ∷ bs)
        → (Holds d k (a + header + b.size) (n ∷ bs)
            → Holds d k (a + header + b.size) (release c (a + header + b.size) (n ∷ bs)))
        → Holds d k a (b ∷ release c (a + header + b.size) (n ∷ bs))
    third (first e q) ih = first e q
    third (later h) ih = later (ih h)
