-- ===== src/Ata/Sector.antt =====
-- The sector that Write28 of source/src/drivers/ata.cpp sends to the disk.
use implementing_os_and_syst.Base.{
  le_not-ltb, codes, ℕ, zero, suc, ◌+◌, ◌-◌, ◌*◌, ◌/◌, ◌%◌, ◌^◌, ◌≤◌, ◌<◌, ◌≡◌, refl, subst, some,
  List, [], ◌∷◌, ◌++◌, ltb, if◌then◌else◌, arith,
}
use implementing_os_and_syst.Ports.{and_then_lem, Event, Device, printed, sent, word}
use implementing_os_and_syst.Ports.Trace.{sent_to}
use implementing_os_and_syst.Ata.{
  Ata, data_port, write_words, write_zeros, word_at, write28, select_sector, pair_text,
}

-- The sector that holds `count` bytes, filled up with zeros, and its words, the last one first.
abbrev pub sector_byte : (ℕ → ℕ) → ℕ → ℕ → ℕ
sector_byte bytes count i = if ltb i count then bytes i else 0

abbrev pub sector_word : (ℕ → ℕ) → ℕ → ℕ → ℕ
sector_word bytes count k =
    sector_byte bytes count (2 * k) + 256 * sector_byte bytes count (2 * k + 1)

abbrev pub sector_words : (ℕ → ℕ) → ℕ → ℕ → List ℕ
sector_words bytes count zero = []
sector_words bytes count (suc k) = sector_word bytes count k ∷ sector_words bytes count k

word_at-sector_word :
    (bytes : ℕ → ℕ) (count j i : ℕ)
    → bytes i < 256
    → bytes (i + 1) < 256
    → i ≡ 2 * j
    → i < count
    → word_at bytes count i % 2 ^ 16 ≡ sector_word bytes count j
word_at-sector_word bytes count j i low high at inside =
    subst
      (λ n.
        word_at bytes count i % 2 ^ 16
        ≡ sector_byte bytes count n + 256 * sector_byte bytes count (n + 1))
      at (ground arith)

-- With as many words sent as sector words, `k` rounds later there are `k` more.
write_words_lem :
    (k : ℕ) (a : Ata) (bytes : ℕ → ℕ) (count j i top : ℕ) (old : List ℕ) (d : Device)
    (t : List Event)
    → ((n : ℕ) → bytes n < 256)
    → i ≡ 2 * j
    → j + k ≡ top
    → 2 * top ≤ count + 1
    → sent_to (data_port a).number t ≡ sector_words bytes count j ++ old
    → let r = write_words a bytes count k i d t in
      (r.0 ≡ some tt) × (sent_to (data_port a).number r.1 ≡ sector_words bytes count top ++ old)
unfolding write_words
write_words_lem zero a bytes count j i top old d t small at all room so_far = (
  refl,
  subst (λ n. sent_to (data_port a).number t ≡ sector_words bytes count n ++ old) (omega arith)
      so_far,
)
write_words_lem (suc k) a bytes count j i top old d t small at all room so_far =
    write_words_lem k a bytes count (suc j) (i + 2) top old d
      (printed (pair_text (word_at bytes count i / 256 % 256) (word_at bytes count i % 256))
        ∷ sent word (a.port_base % 65536) (word_at bytes count i % 65536)
        ∷ t)
      small (omega arith) (omega arith) room
      (ground (
        arith,
        so_far,
        word_at-sector_word bytes count j i (small i) (small (i + 1)) at (omega arith),
      ))

write_zeros_lem :
    (k : ℕ) (a : Ata) (bytes : ℕ → ℕ) (count j top : ℕ) (old : List ℕ) (d : Device) (t : List Event)
    → j + k ≡ top
    → count ≤ 2 * j
    → sent_to (data_port a).number t ≡ sector_words bytes count j ++ old
    → let r = write_zeros a k d t in
      (r.0 ≡ some tt) × (sent_to (data_port a).number r.1 ≡ sector_words bytes count top ++ old)
unfolding write_zeros
write_zeros_lem zero a bytes count j top old d t all rest so_far = (
  refl,
  subst (λ n. sent_to (data_port a).number t ≡ sector_words bytes count n ++ old) (omega arith)
      so_far,
)
write_zeros_lem (suc k) a bytes count j top old d t all rest so_far =
    write_zeros_lem k a bytes count (suc j) top old d (sent word (a.port_base % 65536) 0 ∷ t)
      (omega arith) (omega arith) (ground (arith, so_far))

-- Write28 sends a whole sector: for a sector number of 28 bits and at most 512 bytes it ends, and the words
-- that it has sent to the data port are the 256 of the data filled up with zeros, in order, whatever the
-- disk answers.
pub write28_lem :
    (a : Ata) (sector count : ℕ) (bytes : ℕ → ℕ) (d : Device) (t : List Event)
    → sector ≤ 0x0FFF_FFFF
    → count ≤ 512
    → ((n : ℕ) → bytes n < 256)
    → let r = write28 a sector bytes count d t in
      (r.0 ≡ some tt)
      × (sent_to (data_port a).number r.1
          ≡ sector_words bytes count 256 ++ sent_to (data_port a).number t)
unfolding write28
write28_lem a sector count bytes d t legal fits small =
    let u = printed (codes "Writing to ATA Drive: ") ∷ (select_sector a sector 0x30 d t).1 in
    let p =
      write_words_lem ((count + 1) / 2) a bytes count 0 0 ((count + 1) / 2)
        (sent_to (data_port a).number t) d u small refl (omega arith) (omega arith)
        (ground arith) in
    rw (le_not-ltb sector 0x0FFF_FFFF legal) (
      rw (le_not-ltb count 512 fits) (
        rw
          (and_then_lem (λ x. write_zeros a ((512 - count) / 2)) d
            (write_words a bytes count ((count + 1) / 2) 0 d u) tt p.0)
          (write_zeros_lem ((512 - count) / 2) a bytes count ((count + 1) / 2) 256
            (sent_to (data_port a).number t) d (write_words a bytes count ((count + 1) / 2) 0 d u).1
            (omega arith) (omega arith) p.1)))
