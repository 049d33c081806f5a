-- ===== src/Memory/Refine.antt =====
-- The memory manager against its promise: the row of blocks of `Blocks`.
use implementing_os_and_syst.Base.{
  ℕ, ◌+◌, ◌-◌, ◌%◌, ◌≤◌, ◌<◌, ◌≡◌, ◌≢◌, refl, sym, ap, subst, ◌∙◌, ◌⊎◌, inl, inr, true, false,
  false≢true, List, [], ◌∷◌, Option, some, length, ◌==◌, Bool-cases, arith,
}
use implementing_os_and_syst.Memory.{
  MemoryManager, Headers, header, size_mod, memory_manager, find_chunk, take_chunk, malloc, free,
}
use implementing_os_and_syst.Memory.Blocks.{
  Joined, Block, span, fit, allocate, release, BlockAt, span-allocate, span-release,
}
use implementing_os_and_syst.Memory.Joined.{allocate-Joined, release-Joined, release-allocate}
use implementing_os_and_syst.Memory.Holds.{
  Holds, Holds-BlockAt, Holds-in, Holds-apart, Holds-unique, fit-Holds, allocate-Holds,
  allocate_keeps,
}
use implementing_os_and_syst.Memory.Chain.{start_of, Chain, find_chunk_lem}
use implementing_os_and_syst.Memory.Malloc.{take_chunk_lem, start_of-allocate}
use implementing_os_and_syst.Memory.Free.{free_chunk_lem, start_of-release}

-- The manager holds the row of blocks `bs` from the address `start` on: its headers are linked both
-- ways in the order of addresses without gaps, no two free blocks are neighbours, and the row ends
-- within 32 bits.
pub record IsHeap (m : MemoryManager) (start : ℕ) (bs : List Block) : Type 0 where
  pub first_is : m.first ≡ start_of start bs
  pub linked : Chain m.headers 0 start bs
  pub positive : 0 < start
  pub bound : start + span bs ≤ size_mod
  pub joined : Joined false bs

-- The constructor, on a range that has room for a header, makes a heap of one free block.
pub memory_manager-IsHeap :
    (start size : ℕ) (h : Headers)
    → header ≤ size
    → 0 < start
    → start + size ≤ size_mod
    → IsHeap
        (memory_manager start size h)
        start
        (record { size = size - header; allocated = false } ∷ [])
unfolding memory_manager
memory_manager-IsHeap start size h room pos bound = record {
  first_is = ground arith;
  linked = (ground arith, tt);
  positive = pos;
  bound = omega arith;
  joined = (inl refl, tt);
}

-- What malloc may do with a heap: return null with the heap unchanged, when no block fits; or return
-- the address behind the header of the first block that fits, with that block taken.
pub data Mallocs (size start : ℕ) (bs : List Block) (m : MemoryManager)
    : Option (MemoryManager × ℕ) → Type 0 where
  null : fit size start bs ≡ 0 → Mallocs size start bs m (some (m, 0))
  block :
      (m' : MemoryManager)
      → fit size start bs ≢ 0
      → IsHeap m' start (allocate size bs)
      → Mallocs size start bs m (some (m', fit size start bs + header))

take-IsHeap :
    (size start : ℕ) (bs : List Block) (m : MemoryManager)
    → IsHeap m start bs
    → fit size start bs ≢ 0
    → IsHeap
        (record m { headers = take_chunk size (fit size start bs) m.headers })
        start
        (allocate size bs)
take-IsHeap size start bs m v ne = record {
  first_is = v.first_is ∙ sym (start_of-allocate size start bs);
  linked = (take_chunk_lem size start 0 bs m.headers v.positive v.bound ne v.linked).0;
  positive = v.positive;
  bound = omega (arith, v.bound, span-allocate size bs);
  joined = allocate-Joined size false bs v.joined;
}

-- malloc refines the allocation of the first fitting block, with fuel above the number of blocks: it
-- ends, and it returns null exactly when no free block is larger than the size asked for.
pub malloc-Mallocs :
    (fuel size start : ℕ) (bs : List Block) (m : MemoryManager)
    → IsHeap m start bs
    → length bs < fuel
    → Mallocs size start bs m (malloc fuel size m)
unfolding malloc
malloc-Mallocs fuel size start bs m v f = elim (Bool-cases (fit size start bs == 0)) [
  | inl z ↦
      subst (Mallocs size start bs m) (sym (returns_null (ground arith))) (null (ground arith))
  | inr z ↦
      subst (Mallocs size start bs m) (sym (returns_block (ground arith)))
        (block _ (ground arith) (take-IsHeap size start bs m v (ground arith)))
]
  where
    search : find_chunk fuel size m.first m.headers ≡ some (fit size start bs)
    search = rw v.first_is (find_chunk_lem fuel size m.headers 0 start bs v.positive f v.linked)

    returns_null : fit size start bs ≡ 0 → malloc fuel size m ≡ some (m, 0)
    returns_null z = ground (arith, search)

    inside : fit size start bs ≢ 0 → fit size start bs + header < size_mod
    inside ne =
        let (k, h, _, lt) = fit-Holds size start bs ne in omega (arith, (Holds-in h).1, v.bound)

    returns_block :
        fit size start bs ≢ 0
        → malloc fuel size m
          ≡ some (
            record m { headers = take_chunk size (fit size start bs) m.headers },
            fit size start bs + header,
          )
    returns_block ne = ground (arith, search, inside ne)

-- free of the address behind the header of any block refines the release of that block.
pub free-IsHeap :
    (c start : ℕ) (bs : List Block) (m : MemoryManager)
    → IsHeap m start bs
    → BlockAt c start bs
    → c + header < size_mod
    → IsHeap (free (c + header) m) start (release c start bs)
unfolding free
free-IsHeap c start bs m v at small = record {
  first_is = v.first_is ∙ sym (start_of-release c start start bs);
  linked =
      rw chunk
        (free_chunk_lem c start 0 bs m.headers v.positive v.bound v.positive (inl (inl refl)) at
          v.linked).0;
  positive = v.positive;
  bound = omega (arith, v.bound, span-release c start bs);
  joined = release-Joined c start false bs (inl refl) v.joined;
}
  where
    chunk : (c + header + size_mod - header) % size_mod ≡ c
    chunk = omega arith

-- What a pointer other than null tells of the heap that malloc returns.
record Got (size start : ℕ) (bs : List Block) (m' : MemoryManager) (p : ℕ) : Type 0 where
  is_fit : p ≡ fit size start bs + header
  fitted : fit size start bs ≢ 0
  heap : IsHeap m' start (allocate size bs)

got :
    (size start : ℕ) (bs : List Block) (m m' : MemoryManager) (p : ℕ)
    (r : Option (MemoryManager × ℕ))
    → Mallocs size start bs m r
    → r ≡ some (m', p)
    → p ≢ 0
    → Got size start bs m' p
got size start bs m m' p _ (null z) e ne = absurd (ne (second e))
  where
    second : ◌≡◌ {A = Option (MemoryManager × ℕ)} (some (m, 0)) (some (m', p)) → p ≡ 0
    second h = cc
got size start bs m m' p _ (block m'' ne' v) e ne = record {
  is_fit = second e;
  fitted = ne';
  heap = subst (λ x. IsHeap x start (allocate size bs)) (first e) v;
}
  where
    second :
        ◌≡◌ {A = Option (MemoryManager × ℕ)} (some (m'', fit size start bs + header)) (some (m', p))
        → p ≡ fit size start bs + header
    second h = cc

    first :
        ◌≡◌ {A = Option (MemoryManager × ℕ)} (some (m'', fit size start bs + header)) (some (m', p))
        → m'' ≡ m'
    first h = cc

-- The bytes that malloc returns belong to nobody else: they lie in the heap, every block in use stays
-- where it is with its size, and none of those, header included, overlaps them.
pub malloc_lem :
    (fuel size start p : ℕ) (bs : List Block) (m m' : MemoryManager)
    → IsHeap m start bs
    → length bs < fuel
    → malloc fuel size m ≡ some (m', p)
    → p ≢ 0
    → IsHeap m' start (allocate size bs)
      × (start + header ≤ p)
      × (p + size ≤ start + span bs)
      × ((c : ℕ) (k : Block)
          → Holds c k start bs
          → k.allocated ≡ true
          → Holds c k start (allocate size bs) × ((p + size ≤ c) ⊎ (c + header + k.size ≤ p)))
malloc_lem fuel size start p bs m m' v f e ne =
    let g = got size start bs m m' p _ (malloc-Mallocs fuel size start bs m v f) e ne in
    let (k, h, used, le) = allocate-Holds size start bs g.fitted in
    let (k0, h0, free0, _) = fit-Holds size start bs g.fitted in
    (
      g.heap,
      omega (arith, (Holds-in h).0, g.is_fit),
      omega (arith, (Holds-in h).1, g.is_fit, span-allocate size bs, le),
      λ c l hc busy. (
        allocate_keeps size start bs busy hc,
        apart k.size l.size g.is_fit le (
            Holds-apart h (allocate_keeps size start bs busy hc)
              (λ q. elsewhere k0 h0 free0 c l hc busy q)),
      ),
    )
  where
    apart :
        {c : ℕ} (x y : ℕ)
        → p ≡ fit size start bs + header
        → size ≤ x
        → (fit size start bs + header + x ≤ c) ⊎ (c + header + y ≤ fit size start bs)
        → (p + size ≤ c) ⊎ (c + header + y ≤ p)
    apart x y e le (inl h) = inl (omega arith)
    apart x y e le (inr h) = inr (omega arith)

    elsewhere :
        (k0 : Block)
        → Holds (fit size start bs) k0 start bs
        → k0.allocated ≡ false
        → (c : ℕ) (l : Block) → Holds c l start bs
        → l.allocated ≡ true
        → fit size start bs ≡ c
        → ⊥
    elsewhere k0 h0 free0 c l hc busy q =
        let same : k0 ≡ l = Holds-unique h0 hc q in
        false≢true (sym free0 ∙ ap (λ (z : Block). z.allocated) same ∙ busy)

-- free undoes malloc: after a malloc that did not return null, the free of its pointer leaves the
-- manager with the row of blocks that it had before.
pub free-malloc :
    (fuel size start p : ℕ) (bs : List Block) (m m' : MemoryManager)
    → IsHeap m start bs
    → length bs < fuel
    → malloc fuel size m ≡ some (m', p)
    → p ≢ 0
    → IsHeap (free p m') start bs
free-malloc fuel size start p bs m m' v f e ne =
    let g = got size start bs m m' p _ (malloc-Mallocs fuel size start bs m v f) e ne in
    let (k, h, _, _) = allocate-Holds size start bs g.fitted in
    let (k0, h0, _, lt) = fit-Holds size start bs g.fitted in
    rw g.is_fit (
      subst (IsHeap (free (fit size start bs + header) m') start)
        (release-allocate size start false bs v.positive v.joined g.fitted)
        (free-IsHeap (fit size start bs) start (allocate size bs) m' g.heap (Holds-BlockAt h)
          (omega (arith, (Holds-in h0).1, v.bound, lt))))
