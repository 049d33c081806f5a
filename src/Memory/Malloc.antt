-- ===== src/Memory/Malloc.antt =====
-- The splitting of a chunk by MemoryManager::malloc on the headers, against the row of blocks.
use implementing_os_and_syst.Base.{
  ℕ, ◌+◌, ◌-◌, ◌≤◌, ◌<◌, ◌≡◌, ◌≢◌, refl, sym, ap, ◌∙◌, ◌⊎◌, inl, inr, true, false, List, [], ◌∷◌,
  leb, Bool-cases, arith,
}
use implementing_os_and_syst.Memory.{
  MemoryChunk, Headers, header, size_mod, put, split_chunk, take_chunk,
}
use implementing_os_and_syst.Memory.Blocks.{Block, span, fit, block_fits, allocate}
use implementing_os_and_syst.Memory.Chain.{
  start_of, header_of, Chain, Chain-frame, put_self, put_ne, Becomes,
}

-- The chunk at `a`, of `total` bytes, is split at `size`.
module _ (size a prev next total : ℕ) (h : Headers)
    (at : h a ≡ record { next = next; prev = prev; allocated = false; size = total }) (pos : 0 < a)
    (bound : a + header + total ≤ size_mod) (room : size + header + 1 ≤ total)
    (ahead : (next ≡ 0) ⊎ (next ≡ a + header + total)) where
  abbrev rest_at : ℕ
  rest_at = a + header + size

  split_first :
      take_chunk size a h a ≡ record { next = rest_at; prev = prev; allocated = true; size = size }
  unfolding take_chunk split_chunk
  split_first = ground arith

  split_rest :
      take_chunk size a h rest_at
      ≡ record { next = next; prev = a; allocated = false; size = total - size - header }
  unfolding take_chunk split_chunk
  split_rest = ground arith

  split_next : next ≢ 0 → take_chunk size a h next ≡ record (h next) { prev = rest_at }
  unfolding take_chunk split_chunk
  split_next ne = ground arith

  split_others :
      (x : ℕ) → x ≢ a → x ≢ rest_at → (next ≡ 0) ⊎ (x ≢ next) → take_chunk size a h x ≡ h x
  unfolding take_chunk split_chunk
  split_others x p q r = ground arith

whole_lem :
    (size a : ℕ) (h : Headers)
    → (h a).size < size + header + 1
    → size < (h a).size
    → (h a).size + header < size_mod
    → (x : ℕ) → take_chunk size a h x ≡ put a (record (h a) { allocated = true }) h x
unfolding take_chunk
whole_lem size a h small fit bound x = ground arith

split_tail :
    (size a prev : ℕ) (b : Block) (bs : List Block) (h : Headers) (end : ℕ)
    → a + header + b.size ≡ end
    → h a ≡ header_of prev a b bs
    → b.allocated ≡ false
    → 0 < a
    → a + header + b.size + span bs ≤ size_mod
    → size + header + 1 ≤ b.size
    → Chain h a end bs
    → Chain (take_chunk size a h) (a + header + size) end bs
split_tail size a prev b [] h end e at free pos bound room c = tt
split_tail size a prev b (n ∷ bs) h end e at free pos bound room c = (
  rw (← e) (
      split_next size a prev (a + header + b.size) b.size h (ground arith) pos (omega arith) room
        (inr refl) (omega arith)
      ∙ ground (arith, c.0)),
  Chain-frame h _ end (end + header + n.size) bs
      (λ x lo hi.
        split_others size a prev (a + header + b.size) b.size h (ground arith) pos (omega arith)
          room (inr refl) x (omega arith) (omega arith) (inr (omega arith)))
      c.1,
)

split_row :
    (size a prev : ℕ) (b : Block) (bs : List Block) (h : Headers)
    → b.allocated ≡ false
    → 0 < a
    → a + span (b ∷ bs) ≤ size_mod
    → size + header + 1 ≤ b.size
    → Chain h prev a (b ∷ bs)
    → Becomes a h (take_chunk size a h) prev (
        record { size = size; allocated = true }
        ∷ record { size = b.size - size - header; allocated = false }
        ∷ bs)
split_row size a prev b bs h free pos bound room c = ((first, (second, third)), front)
  where
    next : ℕ
    next = start_of (a + header + b.size) bs

    ahead : (next ≡ 0) ⊎ (next ≡ a + header + b.size)
    ahead =
        elim bs
          as (λ r.
            (start_of (a + header + b.size) r ≡ 0)
            ⊎ (start_of (a + header + b.size) r ≡ a + header + b.size)) [
              | [] ↦ inl refl
              | _ ↦ inr refl
            ]

    at : h a ≡ record { next = next; prev = prev; allocated = false; size = b.size }
    at = ground (arith, c.0)

    end : a + header + size + header + (b.size - size - header) ≡ a + header + b.size
    end = omega arith

    first :
        take_chunk size a h a
        ≡ record { next = a + header + size; prev = prev; allocated = true; size = size }
    first = split_first size a prev next b.size h at pos (omega arith) room ahead

    second : take_chunk size a h (a + header + size) ≡ record {
      next = start_of (a + header + size + header + (b.size - size - header)) bs;
      prev = a;
      allocated = false;
      size = b.size - size - header;
    }
    second = rw end (split_rest size a prev next b.size h at pos (omega arith) room ahead)

    third :
        Chain
          (take_chunk size a h)
          (a + header + size)
          (a + header + size + header + (b.size - size - header))
          bs
    third = rw end (split_tail size a prev b bs h _ refl c.0 free pos (omega arith) room c.1)

    front : (x : ℕ) → x < a → take_chunk size a h x ≡ h x
    front x lt =
        split_others size a prev next b.size h at pos (omega arith) room ahead x (omega arith)
          (omega arith) (elim ahead [ inl e ↦ inl e | inr e ↦ inr (omega arith) ])

whole_row :
    (size a prev : ℕ) (b : Block) (bs : List Block) (h : Headers)
    → b.allocated ≡ false
    → 0 < a
    → a + span (b ∷ bs) ≤ size_mod
    → size < b.size
    → b.size < size + header + 1
    → Chain h prev a (b ∷ bs)
    → Becomes a h (take_chunk size a h) prev (record b { allocated = true } ∷ bs)
whole_row size a prev b bs h free pos bound less small c = (
  (
    whole a ∙ put_self a _ h ∙ ap (λ (k : MemoryChunk). record k { allocated = true }) c.0,
    Chain-frame h _ a (a + header + b.size) bs (λ x lo hi. whole x ∙ put_ne a _ h x (omega arith))
        c.1,
  ),
  λ x lt. whole x ∙ put_ne a _ h x (omega arith),
)
  where
    s : (h a).size ≡ b.size
    s = ap (λ (k : MemoryChunk). k.size) c.0

    whole : (x : ℕ) → take_chunk size a h x ≡ put a (record (h a) { allocated = true }) h x
    whole = whole_lem size a h (omega (arith, s)) (omega (arith, s)) (omega (arith, s))

pub start_of-allocate :
    (size a : ℕ) (bs : List Block) → start_of a (allocate size bs) ≡ start_of a bs
unfolding allocate
start_of-allocate size a [] = refl
start_of-allocate size a (b ∷ bs) = ground arith

-- Taking the chunk that the search has found turns the chain of a row into the chain of the row after
-- the allocation.
pub take_chunk_lem :
    (size a prev : ℕ) (bs : List Block) (h : Headers)
    → 0 < a
    → a + span bs ≤ size_mod
    → fit size a bs ≢ 0
    → Chain h prev a bs
    → Becomes a h (take_chunk size (fit size a bs) h) prev (allocate size bs)
unfolding fit allocate
take_chunk_lem size a prev [] h pos bound ne c = absurd (ne refl)
take_chunk_lem size a prev (b ∷ bs) h pos bound ne c = elim (Bool-cases (block_fits size b)) [
  | inl e ↦ elim (Bool-cases (leb (size + header + 1) b.size)) [
    | inl s ↦ rw (e, s) (split_row size a prev b bs h (ground arith) pos bound (ground arith) c)
    | inr s ↦
        rw (e, s)
          (whole_row size a prev b bs h (ground arith) pos bound (ground arith) (ground arith) c)
  ]
  | inr e ↦ rw e (
      behind (rw e at ne)
        (λ q. take_chunk_lem size (a + header + b.size) a bs h (omega arith) (omega arith) q c.1))
]
  where
    behind :
        fit size (a + header + b.size) bs ≢ 0
        → (fit size (a + header + b.size) bs ≢ 0
            → Becomes
                (a + header + b.size)
                h
                (take_chunk size (fit size (a + header + b.size) bs) h)
                a
                (allocate size bs))
        → Becomes a h
            (take_chunk size (fit size (a + header + b.size) bs) h)
            prev
            (b ∷ allocate size bs)
    behind q ih = (
      (
        (ih q).1 a (omega arith)
            ∙ c.0
            ∙ ap (λ n. record { next = n; prev = prev; allocated = b.allocated; size = b.size })
                (sym (start_of-allocate size (a + header + b.size) bs)),
        (ih q).0,
      ),
      λ x lt. (ih q).1 x (omega arith),
    )
