-- ===== src/Ata/Roundtrip.antt =====
-- Read28 of source/src/drivers/ata.cpp on a disk that gives back the sector that Write28 sent.
use implementing_os_and_syst.Base.{
  inl, inr, get_or, le_not-ltb, codes, ℕ, zero, suc, ◌+◌, ◌-◌, ◌*◌, ◌/◌, ◌%◌, ◌^◌, ◌≤◌, ◌<◌, ◌≡◌,
  refl, ap, sym, ◌∙◌, some, List, [], ◌∷◌, ◌++◌, append_assoc, true, false, Bool-cases, ltb, ◌==◌,
  if◌then◌else◌, arith,
}
use implementing_os_and_syst.Ports.{and_then_lem, Event, Device, received, printed, sent, word}
use implementing_os_and_syst.Ports.Trace.{shown, sent_to}
use implementing_os_and_syst.Ports.Polling.{Settles, poll-Settles, after_reads, after_read}
use implementing_os_and_syst.Ata.{
  Ata, data_port, command_port, read_words, skip_words, read_sector, words_of_count, words_of_rest,
  read28, write28, select_sector, pair_text,
}
use implementing_os_and_syst.Ata.Sector.{sector_word, sector_words, write28_lem}

-- How many words were read from the data port since the last command.
abbrev pub taken : Ata → List Event → ℕ
taken a [] = 0
taken a (received w q v ∷ t) = if q == (data_port a).number then suc (taken a t) else taken a t
taken a (sent w q v ∷ t) = if q == (command_port a).number then 0 else taken a t
taken a (printed text ∷ t) = taken a t

-- The disk gives the words of a sector, one after the other.
abbrev pub Gives : Ata → (ℕ → ℕ) → Device → Type 0
Gives a words d =
    (t : List Event) → taken a t < 256 → d t (data_port a).number % 2 ^ 16 ≡ words (taken a t)

-- A text with the first bytes of an array behind it.
abbrev pub with_bytes : List ℕ → (ℕ → ℕ) → ℕ → List ℕ
with_bytes text bytes zero = text
with_bytes text bytes (suc n) = with_bytes text bytes n ++ (bytes n ∷ [])

-- As many bytes as `count` allows.
abbrev capped : ℕ → ℕ → ℕ
capped count i = if ltb i count then i else count

-- The characters of one round of Read28.
abbrev pub shown_of : ℕ → ℕ → ℕ → List ℕ
shown_of count i v = pair_text (v % 256) (if ltb (i + 1) count then v / 256 % 256 else 0)

abbrev Text : (ℕ → ℕ) → Type 0
Text bytes = (n : ℕ) → (0 < bytes n) × (bytes n < 256)

shown_of-two :
    (bytes : ℕ → ℕ) (count i j : ℕ)
    → Text bytes
    → i ≡ 2 * j
    → ltb (i + 1) count ≡ true
    → shown_of count i (sector_word bytes count j) ≡ bytes i ∷ bytes (suc i) ∷ []
shown_of-two bytes count i j small at more = ground (arith, small i, small (suc i))

shown_of-one :
    (bytes : ℕ → ℕ) (count i j : ℕ)
    → Text bytes
    → i ≡ 2 * j
    → i < count
    → ltb (i + 1) count ≡ false
    → shown_of count i (sector_word bytes count j) ≡ bytes i ∷ []
shown_of-one bytes count i j small at inside last = ground (arith, small i)

-- The next number of bytes shown, after a round from `i` on.
with_bytes-shown_of :
    (text : List ℕ) (bytes : ℕ → ℕ) (count i j : ℕ)
    → Text bytes
    → i ≡ 2 * j
    → i < count
    → with_bytes text bytes i ++ shown_of count i (sector_word bytes count j)
      ≡ with_bytes text bytes (capped count (i + 2))
with_bytes-shown_of text bytes count i j small at inside = elim (Bool-cases (ltb (i + 1) count)) [
  | inl more ↦
      ap (λ xs. with_bytes text bytes i ++ xs) (shown_of-two bytes count i j small at more)
      ∙ sym (append_assoc (with_bytes text bytes i) (bytes i ∷ []) (bytes (suc i) ∷ []))
      ∙ ap (with_bytes text bytes) {x = suc (suc i)} {y = capped count (i + 2)} (ground arith)
  | inr last ↦
      ap (λ xs. with_bytes text bytes i ++ xs) (shown_of-one bytes count i j small at inside last)
      ∙ ap (with_bytes text bytes) {x = suc i} {y = capped count (i + 2)} (ground arith)
]

-- After `j` words, `k` rounds of the loop show the rest of the bytes.
read_words_lem :
    (k : ℕ) (a : Ata) (text : List ℕ) (bytes : ℕ → ℕ) (count j i n : ℕ) (d : Device)
    (t : List Event)
    → Text bytes
    → Gives a (sector_word bytes count) d
    → i ≡ 2 * j
    → n ≡ capped count i
    → j + k ≡ (count + 1) / 2
    → count ≤ 512
    → taken a t ≡ j
    → shown t ≡ with_bytes text bytes n
    → let r = read_words a count k i d t in
      (r.0 ≡ some tt) × (taken a r.1 ≡ (count + 1) / 2) × (shown r.1 ≡ with_bytes text bytes count)
unfolding read_words
read_words_lem zero a text bytes count j i n d t small gives at upto all fits took so_far = (
  refl,
  took ∙ omega arith,
  so_far ∙ ap (with_bytes text bytes) {x = n} {y = count} (ground arith),
)
read_words_lem (suc k) a text bytes count j i n d t small gives at upto all fits took so_far =
    let v = d t (data_port a).number % 2 ^ 16 in
    let given = gives t (omega arith) ∙ ap (sector_word bytes count) took in
    read_words_lem k a text bytes count (suc j) (i + 2) (capped count (i + 2)) d
      (printed (shown_of count i v) ∷ received word (data_port a).number v ∷ t) small gives
      (omega arith) refl (omega arith) fits (ground (arith, took))
      (ap (λ xs. xs ++ shown_of count i v)
          (so_far ∙ ap (with_bytes text bytes) {x = n} {y = i} (ground arith))
        ∙ ap (λ (u : ℕ). with_bytes text bytes i ++ shown_of count i u) given
        ∙ with_bytes-shown_of text bytes count i j small at (omega arith))

skip_words_lem :
    (k j : ℕ) (a : Ata) (d : Device) (t : List Event)
    → taken a t ≡ j
    → let r = skip_words a k d t in (r.0 ≡ some tt) × (taken a r.1 ≡ j + k) × (shown r.1 ≡ shown t)
unfolding skip_words
skip_words_lem zero j a d t took = (refl, took ∙ omega arith, refl)
skip_words_lem (suc k) j a d t took =
    let p =
      skip_words_lem k (suc j) a d
        (received word (data_port a).number (d t (data_port a).number % 2 ^ 16) ∷ t)
        (ground (arith, took)) in
    (p.0, p.1 ∙ omega arith, p.2)

-- The reads of the status take no word.
pub after_reads-taken :
    (n : ℕ) (a : Ata) (d : Device) (t : List Event)
    → (taken a (after_reads (command_port a) d n t) ≡ taken a t)
      × (shown (after_reads (command_port a) d n t) ≡ shown t)
after_reads-taken zero a d t = (refl, refl)
after_reads-taken (suc n) a d t =
    let p = after_reads-taken n a d (after_read (command_port a) d t) in (p.0 ∙ ground arith, p.1)

-- The words that were sent last, the first one of the sector first.
abbrev pub stored : Ata → List Event → ℕ → ℕ
stored a t k = get_or (sent_to (data_port a).number t) (255 - k) 0

get_or-sector_words :
    (top k : ℕ) (bytes : ℕ → ℕ) (count : ℕ) (old : List ℕ)
    → k ≤ top
    → get_or (sector_words bytes count (suc top) ++ old) (top - k) 0 ≡ sector_word bytes count k
get_or-sector_words zero k bytes count old h =
    ap (λ i. get_or (sector_word bytes count 0 ∷ old) i 0) {x = 0 - k} {y = 0} (omega arith)
    ∙ ap (sector_word bytes count) {x = 0} {y = k} (omega arith)
get_or-sector_words (suc top) k bytes count old h =
    let words = sector_words bytes count (suc (suc top)) ++ old in
    elim (Bool-cases (k == suc top)) [
      | inl same ↦
          ap (λ i. get_or words i 0) {x = suc top - k} {y = 0} (ground arith)
          ∙ ap (sector_word bytes count) {x = suc top} {y = k} (ground arith)
      | inr other ↦
          ap (λ i. get_or words i 0) {x = suc top - k} {y = suc (top - k)} (ground arith)
          ∙ get_or-sector_words top k bytes count old (ground arith)
    ]

-- The transfer of a sector from its first word on.
read_sector_lem :
    (a : Ata) (count : ℕ) (bytes : ℕ → ℕ) (text : List ℕ) (e : Device) (u : List Event)
    → count ≤ 512
    → Text bytes
    → Gives a (sector_word bytes count) e
    → taken a u ≡ 0
    → shown u ≡ text
    → let r = read_sector a count e u in
      (r.0 ≡ some tt)
      × (shown r.1 ≡ with_bytes (text ++ codes "Reading ATA Drive: ") bytes count)
      × (taken a r.1 ≡ 256)
unfolding read_sector
read_sector_lem a count bytes text e u fits small gives took so_far =
    let p =
      read_words_lem (words_of_count count) a (text ++ codes "Reading ATA Drive: ") bytes count 0 0
        0 e (printed (codes "Reading ATA Drive: ") ∷ u) small gives refl (ground arith)
        (ground arith) fits took (ap (λ xs. xs ++ codes "Reading ATA Drive: ") so_far) in
    let w =
      read_words a count (words_of_count count) 0 e (printed (codes "Reading ATA Drive: ") ∷ u) in
    let q = skip_words_lem (words_of_rest count) ((count + 1) / 2) a e w.1 p.1 in
    rw (and_then_lem (λ x. skip_words a (words_of_rest count)) e w tt p.0)
      (q.0, q.2 ∙ p.2, q.1 ∙ ground arith)

read28-Settles :
    (fuel : ℕ) (a : Ata) (sector count last : ℕ) (e : Device) (u : List Event)
    → sector ≤ 0x0FFF_FFFF
    → (s : Settles fuel (command_port a) e (select_sector a sector 0x20 e u).1 last) → last % 2 ≡ 0
    → read28 fuel a sector count e u
      ≡ read_sector a count e (
          after_reads
            (command_port a)
            e
            s.busy_reads
            (after_read (command_port a) e (select_sector a sector 0x20 e u).1))
unfolding read28
read28-Settles fuel a sector count last e u legal s fine =
    rw (le_not-ltb sector 0x0FFF_FFFF legal) (
      rw (poll-Settles fuel (command_port a) e (select_sector a sector 0x20 e u).1 last s)
        (rw fine refl))

-- Behind Write28 the words stored are those of the sector.
pub stored_lem :
    (k : ℕ) (a : Ata) (sector count : ℕ) (bytes : ℕ → ℕ) (d : Device) (t : List Event)
    → sector ≤ 0x0FFF_FFFF
    → count ≤ 512
    → ((n : ℕ) → bytes n < 256)
    → k < 256
    → stored a (write28 a sector bytes count d t).1 k ≡ sector_word bytes count k
stored_lem k a sector count bytes d t legal fits small inside =
    ap (λ xs. get_or xs (255 - k) 0) (write28_lem a sector count bytes d t legal fits small).1
    ∙ get_or-sector_words 255 k bytes count (sent_to (data_port a).number t) (omega arith)

-- Reading a sector shows what Write28 wrote to it: when the disk gives back the words of the last Write28
-- and its status settles without an error, Read28 of as many bytes prints those bytes, none of them zero,
-- and takes the 256 words of the sector.
pub read28-write28 :
    (fuel : ℕ) (a : Ata) (sector count last : ℕ) (bytes : ℕ → ℕ) (d e : Device) (t u : List Event)
    → sector ≤ 0x0FFF_FFFF
    → count ≤ 512
    → ((n : ℕ) → (0 < bytes n) × (bytes n < 256))
    → Gives a (stored a (write28 a sector bytes count d t).1) e
    → Settles fuel (command_port a) e (select_sector a sector 0x20 e u).1 last
    → last % 2 ≡ 0
    → let r = read28 fuel a sector count e u in
      (r.0 ≡ some tt)
      × (shown r.1 ≡ with_bytes (shown u ++ codes "Reading ATA Drive: ") bytes count)
      × (taken a r.1 ≡ 256)
read28-write28 fuel a sector count last bytes d e t u legal fits small gives s fine =
    let v = select_sector a sector 0x20 e u in
    let p = after_reads-taken s.busy_reads a e (after_read (command_port a) e v.1) in
    let back = λ (x : List Event) (h : taken a x < 256).
      gives x h ∙ stored_lem (taken a x) a sector count bytes d t legal fits (λ n. (small n).1) h in
    rw (read28-Settles fuel a sector count last e u legal s fine) (
      read_sector_lem a count bytes (shown u) e
        (after_reads (command_port a) e s.busy_reads (after_read (command_port a) e v.1)) fits small
        back (p.0 ∙ ground arith) p.1)
