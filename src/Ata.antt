-- ===== src/Ata.antt =====
-- AdvancedTechnologyAttachment of source/src/drivers/ata.cpp: the commands to a disk, as actions on its ports.
pub mod Sector
pub mod Roundtrip
pub mod Errors
mod Tests
use implementing_os_and_syst.Base.{
  ℕ, zero, suc, ◌+◌, ◌-◌, ◌*◌, ◌/◌, ◌%◌, ◌^◌, Bool, ◌||◌, List, [], ◌∷◌, codes, ltb, ◌==◌,
  if◌then◌else◌,
}
use implementing_os_and_syst.Machine.{word_mod}
use implementing_os_and_syst.Ports.{
  Event, Device, Io, Port, port8, port16, pure, print, read, write, when, ◌>>=◌, ◌>>◌,
}
use implementing_os_and_syst.Ports.Polling.{poll}

pub record Ata : Type 0 where
  pub master : Bool
  pub port_base : ℕ

-- The ports that the constructor makes.
abbrev pub data_port : Ata → Port
data_port a = port16 a.port_base

abbrev pub error_port : Ata → Port
error_port a = port8 (a.port_base + 0x1)

abbrev pub sector_count_port : Ata → Port
sector_count_port a = port8 (a.port_base + 0x2)

abbrev pub lba_low_port : Ata → Port
lba_low_port a = port8 (a.port_base + 0x3)

abbrev pub lba_mid_port : Ata → Port
lba_mid_port a = port8 (a.port_base + 0x4)

abbrev pub lba_hi_port : Ata → Port
lba_hi_port a = port8 (a.port_base + 0x5)

abbrev pub device_port : Ata → Port
device_port a = port8 (a.port_base + 0x6)

abbrev pub command_port : Ata → Port
command_port a = port8 (a.port_base + 0x7)

abbrev pub control_port : Ata → Port
control_port a = port8 (a.port_base + 0x206)

-- What printf shows of two characters: it stops at a zero.
abbrev pub pair_text : ℕ → ℕ → List ℕ
pair_text c d = if c == 0 then [] else if d == 0 then c ∷ [] else c ∷ d ∷ []

-- What follows the wait: `if(status & 0x01) { printf("ERROR"); return; }`, or the rest of the command.
abbrev pub unless_error : ℕ → Io Unit → Io Unit
unless_error status rest = if status % 2 == 1 then print (codes "ERROR") else rest

-- The loop of Identify over `k` words.
pub identify_words : Ata → ℕ → Io Unit
identify_words a zero = pure tt
identify_words a (suc k) = do
  value ← read (data_port a)
  print (pair_text (value / 256 % 256) (value % 256))
  identify_words a k

-- Identify; the wait takes at most `fuel` reads.
pub identify : ℕ → Ata → Io Unit
identify fuel a = do
  write (device_port a) (if a.master then 0xA0 else 0xB0)
  write (control_port a) 0
  write (device_port a) 0xA0
  present ← read (command_port a)
  if present == 0xFF then pure tt else do
    write (device_port a) (if a.master then 0xA0 else 0xB0)
    write (sector_count_port a) 0
    write (lba_low_port a) 0
    write (lba_mid_port a) 0
    write (lba_hi_port a) 0
    write (command_port a) 0xEC
    first ← read (command_port a)
    if first == 0x00 then pure tt else do
      status ← poll fuel (command_port a) first
      unless_error status (do identify_words a 256; print (codes "\n"))

-- The writes of Read28 and Write28 up to their command byte.
abbrev pub select_sector : Ata → ℕ → ℕ → Io Unit
select_sector a sector command = do
  write (device_port a) ((if a.master then 0xE0 else 0xF0) + sector / 2 ^ 24 % 16)
  write (error_port a) 0
  write (sector_count_port a) 1
  write (lba_low_port a) (sector % 256)
  write (lba_mid_port a) (sector / 2 ^ 8 % 256)
  write (lba_low_port a) (sector / 2 ^ 16 % 256)
  write (command_port a) command

-- The loop of Read28 that prints, `k` rounds of it from `i` on.
pub read_words : Ata → ℕ → ℕ → ℕ → Io Unit
read_words a count zero i = pure tt
read_words a count (suc k) i = do
  value ← read (data_port a)
  print (pair_text (value % 256) (if ltb (i + 1) count then value / 256 % 256 else 0))
  read_words a count k (i + 2)

-- The loop that reads the rest of the sector.
pub skip_words : Ata → ℕ → Io Unit
skip_words a zero = pure tt
skip_words a (suc k) = do value ← read (data_port a); skip_words a k

-- How often the two loops run; for a negative `int` the first one not at all, and the second
-- begins before 0.
abbrev pub words_of_count : ℕ → ℕ
words_of_count count = if ltb count (2 ^ 31) then (count + 1) / 2 else 0

abbrev pub words_of_rest : ℕ → ℕ
words_of_rest count =
    if ltb count (2 ^ 31) then (512 - count) / 2 else 256 + (word_mod - count + 1) / 2

-- What Read28 does when the sector is there.
pub read_sector : Ata → ℕ → Io Unit
read_sector a count = do
  print (codes "Reading ATA Drive: ")
  read_words a count (words_of_count count) 0
  skip_words a (words_of_rest count)

-- Read28, with `count` the pattern of an `int`.
pub read28 : ℕ → Ata → ℕ → ℕ → Io Unit
read28 fuel a sector count = if ltb 0x0FFF_FFFF sector then pure tt else do
  select_sector a sector 0x20
  first ← read (command_port a)
  status ← poll fuel (command_port a) first
  unless_error status (read_sector a count)

-- The word that Write28 makes of two bytes.
abbrev pub word_at : (ℕ → ℕ) → ℕ → ℕ → ℕ
word_at bytes count i = bytes i + (if ltb (i + 1) count then bytes (i + 1) * 256 else 0)

-- The loop of Write28 over the data, `k` rounds of it from `i` on.
pub write_words : Ata → (ℕ → ℕ) → ℕ → ℕ → ℕ → Io Unit
write_words a bytes count zero i = pure tt
write_words a bytes count (suc k) i = do
  let value = word_at bytes count i
  write (data_port a) value
  print (pair_text (value / 256 % 256) (value % 256))
  write_words a bytes count k (i + 2)

-- The loop of Write28 that fills the sector up.
pub write_zeros : Ata → ℕ → Io Unit
write_zeros a zero = pure tt
write_zeros a (suc k) = do write (data_port a) 0x0000; write_zeros a k

-- Write28.
pub write28 : Ata → ℕ → (ℕ → ℕ) → ℕ → Io Unit
write28 a sector bytes count = if ltb 0x0FFF_FFFF sector || ltb 512 count then pure tt else do
  select_sector a sector 0x30
  print (codes "Writing to ATA Drive: ")
  write_words a bytes count ((count + 1) / 2) 0
  write_zeros a ((512 - count) / 2)

-- Flush.
pub flush : ℕ → Ata → Io Unit
flush fuel a = do
  write (device_port a) (if a.master then 0xE0 else 0xF0)
  write (command_port a) 0xE7
  first ← read (command_port a)
  if first == 0x00
      then pure tt
      else do status ← poll fuel (command_port a) first; unless_error status (pure tt)
