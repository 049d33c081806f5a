-- ===== src/Network/Ring.antt =====
-- The ring of receive buffers of source/src/drivers/amd_am79c973.cpp: the buffers that belong to the driver, their
-- frames, and the ring when some of them have gone back to the card.
use implementing_os_and_syst.Base.{
  ℕ, zero, suc, ◌+◌, ◌-◌, ◌%◌, ◌≤◌, ◌<◌, ◌≡◌, refl, ap, subst, ◌∙◌, Bool, true, false, ℕ_discrete,
  ◌≢◌, List, [], ◌++◌, codes, ltb, ◌==◌, if◌then◌else◌, arith,
}
use implementing_os_and_syst.Kernel.Hex.{hex_text}
use implementing_os_and_syst.Network.{
  Amd, BufferDescriptor, is_ours, is_frame, frame_size, next_buffer, handed_back, set_descr,
}

-- How many buffers in a row belong to the driver, of the `k` from `i` on around the ring.
abbrev pub own_run : ℕ → (ℕ → BufferDescriptor) → ℕ → ℕ
own_run zero descrs i = 0
own_run (suc k) descrs i =
    let more = own_run k descrs ((i + 1) % 8) in if is_ours (descrs i) then suc more else 0

-- The text of a number of bytes, of a frame, and of the frames in a number of buffers from `i` on.
abbrev pub bytes_text : (ℕ → ℕ) → ℕ → ℕ → List ℕ
bytes_text bytes zero a = []
bytes_text bytes (suc k) a = (hex_text (bytes a) ++ codes " ") ++ bytes_text bytes k (a + 1)

abbrev pub frame_text : (ℕ → ℕ) → BufferDescriptor → List ℕ
frame_text bytes b = if is_frame b then bytes_text bytes (frame_size b) b.address else []

abbrev pub frames_text : (ℕ → ℕ) → (ℕ → BufferDescriptor) → ℕ → ℕ → List ℕ
frames_text bytes descrs zero i = []
frames_text bytes descrs (suc k) i =
    frame_text bytes (descrs i) ++ frames_text bytes descrs k ((i + 1) % 8)

-- A number of buffers go back to the card, from the current one on.
abbrev pub emptied : ℕ → Amd → Amd
emptied zero c = c
emptied (suc n) c = emptied n (next_buffer c)

pub apart : (k p i : ℕ) → i < 8 → p < 8 → suc k ≤ (p + 8 - i) % 8 → (p == i) ≡ false
apart k p i small at far = ground arith

-- A buffer that lies behind those counted does not count.
pub own_run-set_descr :
    (k p i : ℕ) (b : BufferDescriptor) (descrs : ℕ → BufferDescriptor)
    → i < 8
    → p < 8
    → k ≤ (p + 8 - i) % 8
    → own_run k (set_descr p b descrs) i ≡ own_run k descrs i
own_run-set_descr zero p i b descrs small at far = refl
own_run-set_descr (suc k) p i b descrs small at far =
    let ih = own_run-set_descr k p ((i + 1) % 8) b descrs (omega arith) at (omega arith) in
    rw (apart k p i small at far) (ap (λ n. if is_ours (descrs i) then suc n else 0) ih)

pub frames_text-set_descr :
    (k p i : ℕ) (bytes : ℕ → ℕ) (b : BufferDescriptor) (descrs : ℕ → BufferDescriptor)
    → i < 8
    → p < 8
    → k ≤ (p + 8 - i) % 8
    → frames_text bytes (set_descr p b descrs) k i ≡ frames_text bytes descrs k i
frames_text-set_descr zero p i bytes b descrs small at far = refl
frames_text-set_descr (suc k) p i bytes b descrs small at far =
    let ih =
      frames_text-set_descr k p ((i + 1) % 8) bytes b descrs (omega arith) at (omega arith) in
    rw (apart k p i small at far) (ap (λ xs. frame_text bytes (descrs i) ++ xs) ih)

pub own_run_most : (k i : ℕ) (descrs : ℕ → BufferDescriptor) → own_run k descrs i ≤ k
own_run_most zero i descrs = omega arith
own_run_most (suc k) i descrs = let ih = own_run_most k ((i + 1) % 8) descrs in ground arith

itself : (i : ℕ) → (i == i) ≡ true
itself i = ground arith

around : (n i : ℕ) → suc n ≤ 8 → i < 8 → ltb ((i + 8 - (i + 1) % 8) % 8) n ≡ false
around n i most small = ground arith

first : (n i : ℕ) → i < 8 → ltb ((i + 8 - i) % 8) (suc n) ≡ true
first n i small = ground arith

another : (i p : ℕ) → i ≢ p → (i == p) ≡ false
another i p o = ground arith

one_more :
    (n p i : ℕ) (descrs : ℕ → BufferDescriptor)
    → suc n ≤ 8
    → p < 8
    → i < 8
    → (if ltb ((p + 8 - (i + 1) % 8) % 8) n
        then handed_back (set_descr i (handed_back (descrs i)) descrs p)
        else set_descr i (handed_back (descrs i)) descrs p)
      ≡ (if ltb ((p + 8 - i) % 8) (suc n) then handed_back (descrs p) else descrs p)
one_more n p i descrs most at small = elim (ℕ_discrete i p) [
  | yes e ↦
      subst
        (λ q.
          (if ltb ((q + 8 - (i + 1) % 8) % 8) n
            then handed_back (set_descr i (handed_back (descrs i)) descrs q)
            else set_descr i (handed_back (descrs i)) descrs q)
          ≡ (if ltb ((q + 8 - i) % 8) (suc n) then handed_back (descrs q) else descrs q))
        e (rw (itself i, around n i most small, first n i small) refl)
  | no o ↦ rw (another i p o) (
      ap (λ (b : Bool). if b then handed_back (descrs p) else descrs p)
        {x = ltb ((p + 8 - (i + 1) % 8) % 8) n} {y = ltb ((p + 8 - i) % 8) (suc n)} (ground arith))
]

-- What the ring is after a number of buffers went back.
pub emptied_lem :
    (n p : ℕ) (c : Amd)
    → n ≤ 8
    → p < 8
    → c.current_recv_buffer < 8
    → ((emptied n c).current_recv_buffer ≡ (c.current_recv_buffer + n) % 8)
      × ((emptied n c).recv_buffer_descr p ≡ (
          if ltb ((p + 8 - c.current_recv_buffer) % 8) n
          then handed_back (c.recv_buffer_descr p)
          else c.recv_buffer_descr p))
emptied_lem zero p c most at small = (omega arith, ground arith)
emptied_lem (suc n) p c most at small =
    let ih = emptied_lem n p (next_buffer c) (omega arith) at (omega arith) in
    (
      ih.0 ∙ omega arith,
      ih.1 ∙ one_more n p c.current_recv_buffer c.recv_buffer_descr most at small,
    )
