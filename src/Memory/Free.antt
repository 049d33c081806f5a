-- ===== src/Memory/Free.antt =====
-- MemoryManager::free on the headers, against the row of blocks.
use implementing_os_and_syst.Base.{
  ℕ, ◌+◌, ◌≤◌, ◌<◌, ◌≡◌, ◌≢◌, refl, sym, ap, subst, ◌∙◌, ◌⊎◌, inl, inr, true, false, not, ◌&&◌,
  List, [], ◌∷◌, ◌==◌, Bool-cases, arith,
}
use implementing_os_and_syst.Memory.{
  MemoryChunk, Headers, header, size_mod, put, merge_prev, merge_next, free_chunk,
}
use implementing_os_and_syst.Memory.Blocks.{
  Block, span, absorb, release, release-cons, release_first, release_second, BlockAt, here, there,
}
use implementing_os_and_syst.Memory.Chain.{
  start_of, header_of, Chain, Chain-frame, put_self, put_ne, Becomes,
}
use implementing_os_and_syst.Memory.Merge.{
  join, join_row, merge_prev-join, merge_prev-skip, merge_next_row,
}

-- The header of a block is marked free.
unmark : ℕ → Headers → Headers
unmark c h = put c (record (h c) { allocated = false }) h

unmark_row :
    (a prev : ℕ) (b : Block) (bs : List Block) (h : Headers)
    → Chain h prev a (b ∷ bs)
    → Becomes a h (unmark a h) prev (record b { allocated = false } ∷ bs)
unfolding unmark
unmark_row a prev b bs h c = (
  (
    put_self a _ h ∙ ap (λ (k : MemoryChunk). record k { allocated = false }) c.0,
    Chain-frame h _ a (a + header + b.size) bs (λ x lo hi. put_ne a _ h x (omega arith)) c.1,
  ),
  λ x lt. put_ne a _ h x (omega arith),
)

free_chunk-unmark :
    (c : ℕ) (h : Headers)
    → free_chunk c h ≡ merge_next (merge_prev c (unmark c h)).0 (merge_prev c (unmark c h)).1
unfolding free_chunk unmark
free_chunk-unmark c h = refl

-- A block with no free block in front of it is freed.
free_first :
    (a prev : ℕ) (b : Block) (bs : List Block) (h : Headers)
    → 0 < a
    → a + span (b ∷ bs) ≤ size_mod
    → prev < a
    → (prev ≡ 0) ⊎ ((h prev).allocated ≡ true)
    → Chain h prev a (b ∷ bs)
    → Becomes a h (free_chunk a h) prev (absorb b.size bs)
free_first a prev b bs h pos bound before k c =
    rw (free_chunk-unmark a h, merge_prev-skip a (unmark a h) skip)
      (r.0, λ x lt. r.1 x lt ∙ u.1 x lt)
  where
    u : Becomes a h (unmark a h) prev (record b { allocated = false } ∷ bs)
    u = unmark_row a prev b bs h c

    p : (unmark a h a).prev ≡ prev
    p = ap (λ (k : MemoryChunk). k.prev) u.0.0

    skip : ((unmark a h a).prev ≡ 0) ⊎ ((unmark a h (unmark a h a).prev).allocated ≡ true)
    skip = elim k [
      | inl z ↦ inl (p ∙ z)
      | inr z ↦ inr (
          ap (λ q. (unmark a h q).allocated) p
          ∙ ap (λ (k : MemoryChunk). k.allocated) (u.1 prev before)
          ∙ z)
    ]

    r : Becomes a (unmark a h) (merge_next a (unmark a h)) prev (absorb b.size bs)
    r = merge_next_row a prev (record b { allocated = false }) bs (unmark a h) refl pos bound u.0

-- A block behind a free one is freed.
free_second :
    (a prev : ℕ) (b n : Block) (bs : List Block) (h : Headers)
    → b.allocated ≡ false
    → 0 < a
    → a + span (b ∷ n ∷ bs) ≤ size_mod
    → Chain h prev a (b ∷ n ∷ bs)
    → Becomes a h (free_chunk (a + header + b.size) h) prev (absorb (b.size + (n.size + header)) bs)
free_second a prev b n bs h free pos bound c =
    rw
      (
        free_chunk-unmark at h,
        merge_prev-join a at (unmark at h) (ap (λ (k : MemoryChunk). k.prev) u.0.0) (omega arith)
            (ap (λ (k : MemoryChunk). k.allocated) row.0 ∙ free),
      )
      (r.0, λ x lt. r.1 x lt ∙ j.1 x lt ∙ u.1 x (omega arith))
  where
    at : ℕ
    at = a + header + b.size

    u : Becomes at h (unmark at h) a (record n { allocated = false } ∷ bs)
    u = unmark_row at a n bs h c.1

    row : Chain (unmark at h) prev a (b ∷ record n { allocated = false } ∷ bs)
    row = (u.1 a (omega arith) ∙ c.0, u.0)

    j :
        Becomes a
          (unmark at h)
          (join a at (unmark at h))
          prev
          (record b { size = b.size + (n.size + header) } ∷ bs)
    j = join_row a prev b (record n { allocated = false }) bs (unmark at h) pos bound row

    r :
        Becomes a
          (join a at (unmark at h))
          (merge_next a (join a at (unmark at h)))
          prev
          (absorb (b.size + (n.size + header)) bs)
    r =
        merge_next_row a prev (record b { size = b.size + (n.size + header) }) bs
          (join a at (unmark at h)) free pos (omega arith) j.0

pub start_of-release : (c a x : ℕ) (bs : List Block) → start_of x (release c a bs) ≡ start_of x bs
unfolding release
start_of-release c a x [] = refl
start_of-release c a x (b ∷ []) = ground arith
start_of-release c a x (b ∷ n ∷ bs) = ground arith

behind_row :
    (c a prev : ℕ) (b : Block) (bs : List Block) (h : Headers)
    → h a ≡ header_of prev a b bs
    → Becomes (a + header + b.size) h (free_chunk c h) a (release c (a + header + b.size) bs)
    → Becomes a h (free_chunk c h) prev (b ∷ release c (a + header + b.size) bs)
behind_row c a prev b bs h e t = (
  (
    t.1 a (omega arith)
        ∙ e
        ∙ ap (λ n. record { next = n; prev = prev; allocated = b.allocated; size = b.size })
            (sym (start_of-release c (a + header + b.size) (a + header + b.size) bs)),
    t.0,
  ),
  λ x lt. t.1 x (omega arith),
)

tail_at :
    {c a : ℕ} {b : Block} {bs : List Block}
    → a ≢ c
    → BlockAt c a (b ∷ bs)
    → BlockAt c (a + header + b.size) bs
tail_at ne (here e) = absurd (ne e)
tail_at ne (there t) = t

-- The block to free lies behind the first one.
behind :
    (c a prev : ℕ) (b : Block) (bs : List Block) (h : Headers)
    → 0 < a
    → a + span (b ∷ bs) ≤ size_mod
    → a ≢ c
    → BlockAt c (a + header + b.size) bs
    → Chain h prev a (b ∷ bs)
    → (((a ≡ 0) ⊎ ((h a).allocated ≡ true)) ⊎ (a + header + b.size ≢ c)
        → Becomes (a + header + b.size) h (free_chunk c h) a (release c (a + header + b.size) bs))
    → Becomes a h (free_chunk c h) prev (release c a (b ∷ bs))
behind c a prev b [] h pos bound ne at r ih = elim at [ ]
behind c a prev b (n ∷ bs) h pos bound ne at r ih =
    elim (Bool-cases ((a + header + b.size == c) && not b.allocated)) [
      | inl g ↦ second (ground arith) (ground arith)
      | inr g ↦ elim (Bool-cases b.allocated) [
        | inl t ↦ further (inr t) (inl (inr (ap (λ (k : MemoryChunk). k.allocated) r.0 ∙ t)))
        | inr t ↦ further (inl (ground arith)) (inr (ground arith))
      ]
    ]
  where
    second :
        a + header + b.size ≡ c
        → b.allocated ≡ false
        → Becomes a h (free_chunk c h) prev (release c a (b ∷ n ∷ bs))
    second e free =
        subst (Becomes a h (free_chunk c h) prev) (sym (release_second c a b n bs e free)) (
          subst (λ x. Becomes a h (free_chunk x h) prev (absorb (b.size + (n.size + header)) bs)) e
            (free_second a prev b n bs h free pos bound r))

    further :
        (a + header + b.size ≢ c) ⊎ (b.allocated ≡ true)
        → ((a ≡ 0) ⊎ ((h a).allocated ≡ true)) ⊎ (a + header + b.size ≢ c)
        → Becomes a h (free_chunk c h) prev (release c a (b ∷ n ∷ bs))
    further k k' =
        subst (Becomes a h (free_chunk c h) prev) (sym (release-cons c a b (n ∷ bs) ne k))
          (behind_row c a prev b (n ∷ bs) h r.0 (ih k'))

-- Freeing the chunk of a block turns the chain of a row into the chain of the row after the release.
-- The block in front of the row, if any, is allocated, or the first block is not the one freed.
pub free_chunk_lem :
    (c a prev : ℕ) (bs : List Block) (h : Headers)
    → 0 < a
    → a + span bs ≤ size_mod
    → prev < a
    → ((prev ≡ 0) ⊎ ((h prev).allocated ≡ true)) ⊎ (a ≢ c)
    → BlockAt c a bs
    → Chain h prev a bs
    → Becomes a h (free_chunk c h) prev (release c a bs)
free_chunk_lem c a prev [] h pos bound before k at r = elim at [ ]
free_chunk_lem c a prev (b ∷ bs) h pos bound before k at r = elim (Bool-cases (a == c)) [
  | inl e ↦ first (ground arith)
  | inr e ↦ behind c a prev b bs h pos bound (ground arith) (tail_at (ground arith) at) r (λ k'.
      free_chunk_lem c (a + header + b.size) a bs h (omega arith) (omega arith) (omega arith) k'
        (tail_at (ground arith) at) r.1)
]
  where
    first : a ≡ c → Becomes a h (free_chunk c h) prev (release c a (b ∷ bs))
    first e = subst (Becomes a h (free_chunk c h) prev) (sym (release_first c a b bs e)) (
        subst (λ x. Becomes a h (free_chunk x h) prev (absorb b.size bs)) e
          (free_first a prev b bs h pos bound before (not_here k) r))
      where
        not_here :
            ((prev ≡ 0) ⊎ ((h prev).allocated ≡ true)) ⊎ (a ≢ c)
            → (prev ≡ 0) ⊎ ((h prev).allocated ≡ true)
        not_here (inl q) = q
        not_here (inr q) = absurd (q e)
