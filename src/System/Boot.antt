-- ===== src/System/Boot.antt =====
-- What runs in source/src/kernel.cpp before the first task exists: the constructors of the global objects, and
-- the heap.
use implementing_os_and_syst.Base.{
  ℕ, zero, suc, ◌+◌, ◌-◌, ◌*◌, ◌%◌, ◌<◌, ◌≡◌, ◌≢◌, refl, subst, ap, ◌∙◌, true, false, Option, some,
  none, List, [], ◌∷◌, ltb, leb, ◌==◌, if◌then◌else◌, arith,
}
use implementing_os_and_syst.Machine.{word_mod}
use implementing_os_and_syst.Memory.{Headers, MemoryManager, memory_manager, malloc, header}
use implementing_os_and_syst.Memory.Blocks.{Block, fit, allocate}
use implementing_os_and_syst.Memory.Refine.{
  IsHeap, Mallocs, null, block, memory_manager-IsHeap, malloc-Mallocs,
}
use implementing_os_and_syst.System.{kernel_heap, heap_start}

at_end : (i end : ℕ) → end ≡ i + 4 * 0 → (i == end) ≡ true
at_end i end e = ground arith

behind : (i end n : ℕ) → end ≡ i + 4 * suc n → (i == end) ≡ false
behind i end n e = ground arith

fits_word : (i end n : ℕ) → end ≡ i + 4 * n → end < word_mod → i % word_mod ≡ i
fits_word i end n e l = omega arith

module _ {S : Type 0} (table : ℕ → S → S) (end : ℕ) where
  -- callConstructors from `i` on: `table` is what stands at each address.
  pub call_constructors : ℕ → ℕ → S → Option S
  call_constructors zero i s = none
  call_constructors (suc fuel) i s =
      let rest = call_constructors fuel ((i + 4) % word_mod) (table i s) in
      if i == end then some s else rest

  -- `n` entries from `i` on, in their order.
  abbrev pub construct : ℕ → ℕ → S → S
  construct zero i s = s
  construct (suc n) i s = construct n (i + 4) (table i s)

  -- The loop ends where the table has a whole number of entries, and calls each of them once, in their order.
  pub call_constructors_lem :
      (n i : ℕ) (s : S)
      → end ≡ i + 4 * n
      → end < word_mod
      → call_constructors (suc n) i s ≡ some (construct n i s)
  unfolding call_constructors
  call_constructors_lem zero i s e l = rw (at_end i end e) refl
  call_constructors_lem (suc n) i s e l =
      rw (behind i end n e, fits_word (i + 4) end n (omega (arith, e)) l)
        (call_constructors_lem n (i + 4) (table i s) (omega (arith, e)) l)

-- The malloc of kernelMain.
pub boot_allocation : ℕ → Headers → Option (MemoryManager × ℕ)
boot_allocation memupper h = malloc 2 1024 (kernel_heap memupper h)

-- The row of blocks behind it, when the heap has `size` bytes.
abbrev pub boot_blocks : ℕ → List Block
boot_blocks size =
    record { size = 1024; allocated = true }
    ∷ record { size = size - header - 1024 - header; allocated = false }
    ∷ []

heap_size :
    (memupper size : ℕ) (h : Headers)
    → memupper * 1024 ≡ heap_start + 10 * 1024 + size
    → memupper * 1024 < word_mod
    → kernel_heap memupper h ≡ memory_manager heap_start size h
heap_size memupper size h e l = ap (λ (n : ℕ). memory_manager heap_start n h) (omega (arith, e, l))

found :
    {size start : ℕ} {bs : List Block} {m : MemoryManager} {r : Option (MemoryManager × ℕ)}
    → Mallocs size start bs m r
    → fit size start bs ≢ 0
    → (m' : MemoryManager) × (r ≡ some (m', fit size start bs + header))
      × IsHeap m' start (allocate size bs)
found (null e) n = absurd (n e)
found (block m' e v) n = (m', refl, v)

big : (size : ℕ) → header + 1024 + header < size → ltb 1024 (size - header) ≡ true
big size r = ground arith

room : (size : ℕ) → header + 1024 + header < size → leb (1024 + header + 1) (size - header) ≡ true
room size r = ground arith

first_fits :
    (size : ℕ)
    → header + 1024 + header < size
    → let bs : List Block = record { size = size - header; allocated = false } ∷ [] in
      (fit 1024 heap_start bs ≡ heap_start) × (allocate 1024 bs ≡ boot_blocks size)
unfolding fit allocate
first_fits size r = (rw (big size r) refl, rw (big size r, room size r) refl)

pub boot_allocation_lem :
    (memupper size : ℕ) (h : Headers)
    → memupper * 1024 ≡ heap_start + 10 * 1024 + size
    → memupper * 1024 < word_mod
    → header + 1024 + header < size
    → (m : MemoryManager) × (boot_allocation memupper h ≡ some (m, heap_start + header))
      × IsHeap m heap_start (boot_blocks size)
unfolding boot_allocation
boot_allocation_lem memupper size h e l r =
    let f = first_fits size r in
    let v =
      memory_manager-IsHeap heap_start size h (omega (arith, r)) (omega arith)
        (omega (arith, e, l)) in
    let a = found (malloc-Mallocs 2 1024 heap_start _ _ v (omega arith)) (omega (arith, f.0)) in
    (
      a.0,
      ap (malloc 2 1024) (heap_size memupper size h e l)
          ∙ a.1
          ∙ ap (λ (p : ℕ). some (a.0, p + header)) f.0,
      subst (IsHeap a.0 heap_start) f.1 a.2,
    )

-- With less memory than lies before the heap and behind it, the size of the heap wraps around: it has no bound
-- by the memory, and the end of its first block is a number of more than 32 bits.
pub heap_wraps :
    (memupper missing : ℕ) (h : Headers)
    → memupper * 1024 + missing ≡ heap_start + 10 * 1024
    → 0 < missing
    → (kernel_heap memupper h ≡ memory_manager heap_start (word_mod - missing) h)
      × (heap_start + (word_mod - missing) ≡ word_mod + memupper * 1024 - 10 * 1024)
heap_wraps memupper missing h e p =
    (ap (λ (n : ℕ). memory_manager heap_start n h) (omega (arith, e, p)), omega (arith, e, p))
