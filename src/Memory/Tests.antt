-- ===== src/Memory/Tests.antt =====
-- The heap of source/src/memorymanagement.cpp on a range of 1024 bytes.
use implementing_os_and_syst.Base.{◌-◌, ◌≡◌, refl, false, some, List, [], ◌∷◌, arith}
use implementing_os_and_syst.Memory.{
  Headers, MemoryManager, memory_manager, malloc, free, header, find_chunk, take_chunk,
}
use implementing_os_and_syst.Memory.Blocks.{Block, here, allocate, release}
use implementing_os_and_syst.Memory.Refine.{
  IsHeap, Mallocs, memory_manager-IsHeap, malloc-Mallocs, malloc_lem, free-malloc, free-IsHeap,
}

abbrev no_headers : Headers
no_headers a = record { next = 0; prev = 0; allocated = false; size = 0 }

abbrev heap : MemoryManager
heap = memory_manager 0x1000 1024 no_headers

abbrev blocks : List Block
blocks = record { size = 1024 - header; allocated = false } ∷ []

heap-IsHeap : IsHeap heap 0x1000 blocks
heap-IsHeap = memory_manager-IsHeap 0x1000 1024 no_headers (omega arith) (omega arith) (omega arith)

malloc-Mallocs_example : Mallocs 100 0x1000 blocks heap (malloc 5 100 heap)
malloc-Mallocs_example = malloc-Mallocs 5 100 0x1000 blocks heap heap-IsHeap (omega arith)

-- The manager after a malloc of 100 bytes.
abbrev taken : MemoryManager
taken = record { first = 0x1000; headers = take_chunk 100 0x1000 heap.headers }

malloc_100 : malloc 5 100 heap ≡ some (taken, 0x1010)
unfolding malloc memory_manager find_chunk
malloc_100 = refl

malloc_too_much : malloc 5 1008 heap ≡ some (heap, 0)
unfolding malloc memory_manager find_chunk
malloc_too_much = refl

taken-IsHeap : IsHeap taken 0x1000 (allocate 100 blocks)
taken-IsHeap =
    (malloc_lem 5 100 0x1000 0x1010 blocks heap taken heap-IsHeap (omega arith) malloc_100
      (omega arith)).0

malloc_lem_example : IsHeap taken 0x1000 (allocate 100 blocks)
malloc_lem_example =
    (malloc_lem 5 100 0x1000 0x1010 blocks heap taken heap-IsHeap (omega arith) malloc_100
      (omega arith)).0

free-malloc_example : IsHeap (free 0x1010 taken) 0x1000 blocks
free-malloc_example =
    free-malloc 5 100 0x1000 0x1010 blocks heap taken heap-IsHeap (omega arith) malloc_100
      (omega arith)

free-IsHeap_example :
    IsHeap (free 0x1010 taken) 0x1000 (release 0x1000 0x1000 (allocate 100 blocks))
unfolding allocate
free-IsHeap_example =
    free-IsHeap 0x1000 0x1000 (allocate 100 blocks) taken taken-IsHeap (here refl) (omega arith)
