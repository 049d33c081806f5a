-- ===== src/Ata/Errors.antt =====
-- The commands of source/src/drivers/ata.cpp on a disk that reports an error, and those that are refused.
use implementing_os_and_syst.Base.{
  le_not-ltb, codes, get_or, inl, inr, ℕ, zero, suc, ◌+◌, ◌-◌, ◌/◌, ◌%◌, ◌≤◌, ◌<◌, ◌≡◌, refl, ap,
  sym, ◌∙◌, some, List, [], ◌∷◌, ◌++◌, append-nil, true, false≢true, Bool-cases, ltb, ◌||◌, ◌==◌,
  if◌then◌else◌, arith,
}
use implementing_os_and_syst.Ports.{and_then_lem, Event, Device, printed, sent, word, write, ◌>>◌}
use implementing_os_and_syst.Ports.Trace.{shown, sent_to}
use implementing_os_and_syst.Ports.Polling.{
  is_busy, answer, Settles, given, poll-Settles, after_read,
}
use implementing_os_and_syst.Ata.{
  Ata, command_port, device_port, write_words, write_zeros, word_at, pair_text, read28, flush,
  write28, select_sector,
}
use implementing_os_and_syst.Ata.Roundtrip.{taken, after_reads-taken}

-- When the status settles with the error bit, Read28 prints ERROR and nothing else, and takes no word of the
-- sector.
pub read28_error :
    (fuel : ℕ) (a : Ata) (sector count last : ℕ) (d : Device) (t : List Event)
    → sector ≤ 0x0FFF_FFFF
    → Settles fuel (command_port a) d (select_sector a sector 0x20 d t).1 last
    → last % 2 ≡ 1
    → let r = read28 fuel a sector count d t in
      (r.0 ≡ some tt) × (shown r.1 ≡ shown t ++ codes "ERROR") × (taken a r.1 ≡ 0)
unfolding read28
read28_error fuel a sector count last d t legal s failed =
    let v = select_sector a sector 0x20 d t in
    let p = after_reads-taken s.busy_reads a d (after_read (command_port a) d v.1) in
    rw (le_not-ltb sector 0x0FFF_FFFF legal) (
      rw (poll-Settles fuel (command_port a) d v.1 last s)
        (rw failed (refl, ap (λ xs. xs ++ codes "ERROR") p.1, p.0 ∙ ground arith)))

-- Where the first status is zero the loop makes no round.
settles_at_once :
    (n last : ℕ) (a : Ata) (d : Device) (t : List Event)
    → given (command_port a) d t ≡ 0
    → ((j : ℕ)
        → j < n
        → is_busy (
            answer
              (command_port a)
              d
              (given (command_port a) d t)
              (after_read (command_port a) d t)
              j)
          ≡ true)
    → answer (command_port a) d (given (command_port a) d t) (after_read (command_port a) d t) n
      ≡ last
    → last ≡ 0
settles_at_once zero last a d t none_set busy l = sym l ∙ none_set
settles_at_once (suc n) last a d t none_set busy l =
    absurd (false≢true (ap is_busy (sym none_set) ∙ busy 0 (omega arith)))

-- Flush ends as soon as the status settles, and prints ERROR exactly if the error bit is set then; it moves
-- no word.
pub flush_lem :
    (fuel : ℕ) (a : Ata) (last : ℕ) (d : Device) (t : List Event)
    → Settles fuel
        (command_port a)
        d
        ((write (device_port a) (if a.master then 0xE0 else 0xF0) >> write (command_port a) 0xE7) d
          t).1
        last
    → let r = flush fuel a d t in
      (r.0 ≡ some tt)
      × (shown r.1 ≡ shown t ++ (if last % 2 == 1 then codes "ERROR" else []))
      × (taken a r.1 ≡ 0)
unfolding flush
flush_lem fuel a last d t s =
    let v =
      (write (device_port a) (if a.master then 0xE0 else 0xF0) >> write (command_port a) 0xE7) d
        t in
    let p = after_reads-taken s.busy_reads a d (after_read (command_port a) d v.1) in
    elim (Bool-cases (given (command_port a) d v.1 == 0)) [
      | inl e ↦ rw e (
        refl,
        sym (append-nil (shown t))
            ∙ ap (λ (n : ℕ). shown t ++ (if n % 2 == 1 then codes "ERROR" else [])) {x = 0}
                {y = last}
                (sym (
                  settles_at_once s.busy_reads last a d v.1 (ground arith) s.busy_before
                    s.last_is)),
        ground arith,
      )
      | inr e ↦ rw e (
          rw (poll-Settles fuel (command_port a) d v.1 last s) (elim (Bool-cases (last % 2 == 1)) [
            | inl f ↦ rw f (refl, ap (λ xs. xs ++ codes "ERROR") p.1, p.0 ∙ ground arith)
            | inr f ↦ rw f (refl, p.1 ∙ sym (append-nil (shown t)), p.0 ∙ ground arith)
          ]))
    ]

write_words-sent_to :
    (k : ℕ) (a : Ata) (bytes : ℕ → ℕ) (count i : ℕ) (d : Device) (t : List Event)
    → ((write_words a bytes count k i d t).0 ≡ some tt)
      × (sent_to (command_port a).number (write_words a bytes count k i d t).1
          ≡ sent_to (command_port a).number t)
unfolding write_words
write_words-sent_to zero a bytes count i d t = (refl, refl)
write_words-sent_to (suc k) a bytes count i d t =
    let p = write_words-sent_to k a bytes count (i + 2) d (
      printed (pair_text (word_at bytes count i / 256 % 256) (word_at bytes count i % 256))
      ∷ sent word (a.port_base % 65536) (word_at bytes count i % 65536)
      ∷ t) in
    (p.0, p.1 ∙ ground arith)

write_zeros-sent_to :
    (k : ℕ) (a : Ata) (d : Device) (t : List Event)
    → sent_to (command_port a).number (write_zeros a k d t).1 ≡ sent_to (command_port a).number t
unfolding write_zeros
write_zeros-sent_to zero a d t = refl
write_zeros-sent_to (suc k) a d t =
    write_zeros-sent_to k a d (sent word (a.port_base % 65536) 0 ∷ t) ∙ ground arith

-- Write28 commands a write exactly if the sector number has 28 bits and there are at most 512 bytes.
pub write28_commands :
    (a : Ata) (sector count : ℕ) (bytes : ℕ → ℕ) (d : Device) (t : List Event)
    → sent_to (command_port a).number (write28 a sector bytes count d t).1 ≡ (
        if ltb 0x0FFF_FFFF sector || ltb 512 count
        then sent_to (command_port a).number t
        else 0x30 ∷ sent_to (command_port a).number t)
unfolding write28
write28_commands a sector count bytes d t =
    elim (Bool-cases (ltb 0x0FFF_FFFF sector || ltb 512 count)) [
      | inl e ↦ rw e refl
      | inr e ↦
          let u = printed (codes "Writing to ATA Drive: ") ∷ (select_sector a sector 0x30 d t).1 in
          let w = write_words a bytes count ((count + 1) / 2) 0 d u in
          let p = write_words-sent_to ((count + 1) / 2) a bytes count 0 d u in
          rw e (
            rw (and_then_lem (λ x. write_zeros a ((512 - count) / 2)) d w tt p.0)
              (write_zeros-sent_to ((512 - count) / 2) a d w.1 ∙ p.1 ∙ ground arith))
    ]

-- The register that a port leads to holds what was sent last.
abbrev pub latched : ℕ → List Event → ℕ
latched p t = get_or (sent_to p t) 0 0

-- The sector that a command reaches depends on bits 8 to 27 of its number only: the low register is written
-- twice, the high one never, so that sectors that differ in the lowest byte leave every register the same.
pub select_sector_lem :
    (a : Ata) (sector other command p : ℕ) (d : Device) (t : List Event)
    → sector / 256 ≡ other / 256
    → latched p (select_sector a sector command d t).1
      ≡ latched p (select_sector a other command d t).1
select_sector_lem a sector other command p d t same = ground (arith)
