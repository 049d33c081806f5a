-- ===== src/Memory.antt =====
-- source/src/memorymanagement.cpp and source/include/memorymanagement.h: the heap, a doubly linked list of chunks.
-- The memory is seen as the header at each address; 0 is the null pointer.
pub mod Blocks
pub mod Joined
pub mod Holds
pub mod Chain
pub mod Malloc
pub mod Merge
pub mod Free
pub mod Refine
mod Tests
use implementing_os_and_syst.Base.{
  ℕ, zero, suc, ◌+◌, ◌-◌, ◌*◌, ◌%◌, ◌^◌, Bool, true, false, not, ◌&&◌, Option, none, some, ltb, leb,
  ◌==◌, if◌then◌else◌,
}

pub record MemoryChunk : Type 0 where
  pub next : ℕ
  pub prev : ℕ
  pub allocated : Bool
  pub size : ℕ

-- `sizeof(MemoryChunk)`: two pointers, a bool padded to four bytes, and the size.
abbrev pub header : ℕ
header = 16

abbrev pub size_mod : ℕ
size_mod = 2 ^ 32

abbrev pub Headers : Type 0
Headers = ℕ → MemoryChunk

abbrev pub put : ℕ → MemoryChunk → Headers → Headers
put a c h x = if a == x then c else h x

pub record MemoryManager : Type 0 where
  pub first : ℕ
  pub headers : Headers

-- The constructor.
pub memory_manager : ℕ → ℕ → Headers → MemoryManager
memory_manager start size h =
    if ltb size header then record { first = 0; headers = h } else record {
      first = start;
      headers =
          put start (record { next = 0; prev = 0; allocated = false; size = size - header }) h;
    }

abbrev pub fits : ℕ → MemoryChunk → Bool
fits size c = ltb size c.size && not c.allocated

-- The search loop of malloc from a chunk on; 0 where there is no fitting chunk, and `none` where the
-- fuel ran out.
pub find_chunk : ℕ → ℕ → ℕ → Headers → Option ℕ
find_chunk zero size c h = none
find_chunk (suc fuel) size c h =
    let rest = find_chunk fuel size (h c).next h in
    if c == 0 then some 0 else (if fits size (h c) then some c else rest)

-- `if(p != 0) p->prev = c`
abbrev pub set_prev : ℕ → ℕ → Headers → Headers
set_prev p c h = if p == 0 then h else put p (record (h p) { prev = c }) h

-- The part of malloc that splits a chunk: a header of the rest goes behind the block of `size` bytes.
pub split_chunk : ℕ → ℕ → Headers → Headers
split_chunk size c h =
    let temp = (c + header + size) % size_mod in
    let h1 =
      put temp
        (record {
          next = (h c).next;
          prev = c;
          allocated = false;
          size = ((h c).size + 2 * size_mod - size - header) % size_mod;
        })
        h in
    let h2 = set_prev (h1 temp).next temp h1 in
    put c (record (h2 c) { size = size; next = temp }) h2

-- The chunk that malloc has found becomes allocated, split if a header and a byte are left.
pub take_chunk : ℕ → ℕ → Headers → Headers
take_chunk size c h =
    let h' = if leb ((size + header + 1) % size_mod) (h c).size then split_chunk size c h else h in
    put c (record (h' c) { allocated = true }) h'

-- malloc; the pointer that it returns is 0 where no chunk fits.
pub malloc : ℕ → ℕ → MemoryManager → Option (MemoryManager × ℕ)
malloc fuel size m = elim (find_chunk fuel size m.first m.headers) [
  | none ↦ none
  | some c ↦
      if c == 0
      then some (m, 0)
      else some (record m { headers = take_chunk size c m.headers }, (c + header) % size_mod)
]

-- The first merge of free: into the chunk before, if that is free. The result names the chunk that
-- the second merge starts from.
pub merge_prev : ℕ → Headers → ℕ × Headers
merge_prev c h =
    let p = (h c).prev in
    if not (p == 0) && not (h p).allocated
    then (
      p,
      set_prev (h c).next p (
          put p
            (record (h p) {
              next = (h c).next;
              size = ((h p).size + ((h c).size + header)) % size_mod;
            })
            h),
    )
    else (c, h)

-- The second merge of free: the chunk behind is taken in, if that is free.
pub merge_next : ℕ → Headers → Headers
merge_next c h =
    let n = (h c).next in
    if not (n == 0) && not (h n).allocated
    then set_prev (h n).next c (
        put c
          (record (h c) {
            next = (h n).next;
            size = ((h c).size + ((h n).size + header)) % size_mod;
          })
          h)
    else h

-- free of the chunk at an address.
pub free_chunk : ℕ → Headers → Headers
free_chunk c h =
    let (c', h') = merge_prev c (put c (record (h c) { allocated = false }) h) in merge_next c' h'

-- free of a pointer.
pub free : ℕ → MemoryManager → MemoryManager
free ptr m = record m { headers = free_chunk ((ptr + size_mod - header) % size_mod) m.headers }

-- `operator new` and `operator delete` over `activeMemoryManager`, which may be null.
pub operator_new : ℕ → ℕ → Option MemoryManager → Option (Option MemoryManager × ℕ)
operator_new fuel size none = some (none, 0)
operator_new fuel size (some m) = elim (malloc fuel size m) [
  | none ↦ none
  | some (m', p) ↦ some (some m', p)
]

pub operator_delete : ℕ → Option MemoryManager → Option MemoryManager
operator_delete ptr none = none
operator_delete ptr (some m) = some (free ptr m)
