-- ===== src/Network/Setup/Buffers.antt =====
-- What the constructor of source/src/drivers/amd_am79c973.cpp leaves behind: the two rings, and where their
-- buffers lie.
use implementing_os_and_syst.Base.{
  ℕ, zero, suc, ◌+◌, ◌*◌, ◌/◌, ◌%◌, ◌^◌, ◌≤◌, ◌<◌, ◌≡◌, refl, ap, ◌∙◌, some, false, true, ◌&&◌, ltb,
  leb, List, ◌==◌, if◌then◌else◌, arith,
}
use implementing_os_and_syst.Ports.{Device, Event}
use implementing_os_and_syst.Network.{Amd, is_ours}
use implementing_os_and_syst.Network.Setup.{
  Layout, aligned, buffer_address, mac, set_up_buffer, set_up_buffers, initialised, built,
  amd_am79c973,
}

-- The loop sets up the `k` descriptors from `i` on.
set_up_buffers_lem :
    (k i p : ℕ) (l : Layout) (c : Amd)
    → let r = set_up_buffers l k i c in
      ((r.send_buffer_descr p).address ≡ (
        if leb i p && ltb p (i + k)
        then buffer_address l.send_buffers p
        else (c.send_buffer_descr p).address))
      × ((r.send_buffer_descr p).flags
          ≡ (if leb i p && ltb p (i + k) then 0xF7FF else (c.send_buffer_descr p).flags))
      × ((r.recv_buffer_descr p).address ≡ (
          if leb i p && ltb p (i + k)
          then buffer_address l.recv_buffers p
          else (c.recv_buffer_descr p).address))
      × ((r.recv_buffer_descr p).flags
          ≡ (if leb i p && ltb p (i + k) then 0x8000_F7FF else (c.recv_buffer_descr p).flags))
      × (r.current_send_buffer ≡ c.current_send_buffer)
      × (r.current_recv_buffer ≡ c.current_recv_buffer)
      × (r.init_block ≡ c.init_block)
unfolding set_up_buffers
set_up_buffers_lem zero i p l c =
    (ground arith, ground arith, ground arith, ground arith, refl, refl, refl)
set_up_buffers_lem (suc k) i p l c =
    let ih = set_up_buffers_lem k (i + 1) p l (set_up_buffer l i c) in
    (
      ih.0 ∙ ground arith,
      ih.1 ∙ ground arith,
      ih.2 ∙ ground arith,
      ih.3 ∙ ground arith,
      ih.4,
      ih.5,
      ih.6,
    )

in_ring : (p : ℕ) → p < 8 → (leb 0 p && ltb p (0 + 8)) ≡ true
in_ring p inside = ground arith

chosen : (p x y : ℕ) → p < 8 → (if leb 0 p && ltb p (0 + 8) then x else y) ≡ x
chosen p x y inside = rw (in_ring p inside) refl

word_small : (v w : ℕ) → v % 2 ^ 16 ≡ w → w < 2 ^ 16
word_small v w e = omega arith

aligned_lem : (a : ℕ) → aligned a % 16 ≡ 0
unfolding aligned
aligned_lem a = omega arith

-- Both reads of a word give it.
mac_lem :
    (w0 w2 w4 : ℕ) {v0 v1 v2 v3 v4 v5 : ℕ}
    → w0 < 2 ^ 16
    → w2 < 2 ^ 16
    → w4 < 2 ^ 16
    → v0 ≡ w0
    → v1 ≡ w0
    → v2 ≡ w2
    → v3 ≡ w2
    → v4 ≡ w4
    → v5 ≡ w4
    → mac (v0 % 256) (v1 / 256) (v2 % 256) (v3 / 256) (v4 % 256) (v5 / 256)
      ≡ w4 * 2 ^ 32 + w2 * 2 ^ 16 + w0
unfolding mac
mac_lem w0 w2 w4 a b c e0 e1 e2 e3 e4 e5 = omega arith

built_lem :
    (p : ℕ) (l : Layout) (base physical : ℕ) (fresh : Amd)
    → p < 8
    → let c = built l base physical fresh in
      (is_ours (c.recv_buffer_descr p) ≡ false)
      × (is_ours (c.send_buffer_descr p) ≡ true)
      × ((c.recv_buffer_descr p).address ≡ buffer_address l.recv_buffers p)
      × ((c.send_buffer_descr p).address ≡ buffer_address l.send_buffers p)
      × (c.current_recv_buffer ≡ 0)
      × (c.current_send_buffer ≡ 0)
      × (c.init_block.physical_address ≡ physical)
built_lem p l base physical fresh inside =
    let h = set_up_buffers_lem 8 0 p l (initialised l base physical fresh) in
    (
      ap (λ (v : ℕ). v / 2 ^ 31 % 2 == 0) (h.3 ∙ chosen p _ _ inside),
      ap (λ (v : ℕ). v / 2 ^ 31 % 2 == 0) (h.1 ∙ chosen p _ _ inside),
      h.2 ∙ chosen p _ _ inside,
      h.0 ∙ chosen p _ _ inside,
      h.5,
      h.4,
      ap (λ b. b.physical_address) h.6,
    )

-- The constructor ends, and starts both rings at their first buffer, with every receive buffer in the
-- card's hands and every send buffer in the driver's, and the buffers on 16-byte boundaries. On a card
-- whose three words of the address do not change, the block has the address with the first word lowest.
pub amd_am79c973_lem :
    (p w0 w2 w4 : ℕ) (l : Layout) (base : ℕ) (fresh : Amd) (d : Device) (t : List Event)
    → p < 8
    → ((u : List Event) → d u ((base + 0) % 2 ^ 16) % 2 ^ 16 ≡ w0)
    → ((u : List Event) → d u ((base + 2) % 2 ^ 16) % 2 ^ 16 ≡ w2)
    → ((u : List Event) → d u ((base + 4) % 2 ^ 16) % 2 ^ 16 ≡ w4)
    → (c : Amd) × ((amd_am79c973 l base fresh d t).0 ≡ some c)
      × (is_ours (c.recv_buffer_descr p) ≡ false)
      × (is_ours (c.send_buffer_descr p) ≡ true)
      × ((c.recv_buffer_descr p).address % 16 ≡ 0)
      × ((c.send_buffer_descr p).address % 16 ≡ 0)
      × (c.current_recv_buffer ≡ 0)
      × (c.current_send_buffer ≡ 0)
      × (c.init_block.physical_address ≡ w4 * 2 ^ 32 + w2 * 2 ^ 16 + w0)
unfolding amd_am79c973 buffer_address
amd_am79c973_lem p w0 w2 w4 l base fresh d t inside h0 h2 h4 =
    let b = built_lem p l base _ fresh inside in
    (
      _,
      refl,
      b.0,
      b.1,
      ap (λ (v : ℕ). v % 16) b.2 ∙ aligned_lem ((l.recv_buffers + 8 * p) % 2 ^ 32),
      ap (λ (v : ℕ). v % 16) b.3 ∙ aligned_lem ((l.send_buffers + 8 * p) % 2 ^ 32),
      b.4,
      b.5,
      b.6
          ∙ mac_lem w0 w2 w4 (word_small _ w0 (h0 t)) (word_small _ w2 (h2 t))
              (word_small _ w4 (h4 t)) (h0 _) (h0 _) (h2 _) (h2 _) (h4 _) (h4 _),
    )

-- The rows of the arrays are 8 bytes long, so that the eight buffers begin within 64 bytes of each
-- other: a frame of more than 64 bytes in one of them reaches into all behind it.
pub buffers_overlap :
    (i j : ℕ) (l : Layout) (base physical : ℕ) (fresh : Amd)
    → i ≤ j
    → j < 8
    → l.send_buffers + 71 < 2 ^ 32
    → let c = built l base physical fresh in
      ((c.send_buffer_descr i).address ≤ (c.send_buffer_descr j).address)
      × ((c.send_buffer_descr j).address ≤ (c.send_buffer_descr i).address + 64)
unfolding buffer_address aligned
buffers_overlap i j l base physical fresh before inside room =
    let bi = (built_lem i l base physical fresh (omega arith)).3 in
    let bj = (built_lem j l base physical fresh inside).3 in
    (omega (arith, bi, bj), omega (arith, bi, bj))
