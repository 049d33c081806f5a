-- ===== src/Ata/Tests.antt =====
-- The commands on a disk that is ready at once, and on one that reports an error.
use implementing_os_and_syst.Base.{
  ℕ, ◌+◌, ◌%◌, ◌≡◌, ◌<◌, refl, sym, ◌∙◌, true, some, List, [], ◌++◌, codes, ◌==◌, if◌then◌else◌,
  arith,
}
use implementing_os_and_syst.Ports.{Event, Device}
use implementing_os_and_syst.Ports.Trace.{shown}
use implementing_os_and_syst.Ports.Polling.{Settles}
use implementing_os_and_syst.Ata.{Ata, command_port, write28, read28, select_sector}
use implementing_os_and_syst.Ata.Sector.{sector_word}
use implementing_os_and_syst.Ata.Roundtrip.{
  Gives, taken, stored, stored_lem, with_bytes, read28-write28,
}
use implementing_os_and_syst.Ata.Errors.{read28_error}

abbrev primary : Ata
primary = record { master = true; port_base = 0x1F0 }

abbrev letters : ℕ → ℕ
letters n = b'a' + n % 26

letters_small : (n : ℕ) → letters n < 256
letters_small n = omega arith

-- Every status is the one given, every word a zero.
abbrev steady : ℕ → Device
steady status t p = if p == 0x1F0 then 0 else status

settled :
    (status : ℕ) (t : List Event)
    → Settles 0 (command_port primary) (steady (status % 128)) t (status % 128)
settled status t = record {
  busy_reads = 0;
  in_time = omega arith;
  busy_before = λ j h. absurd (omega arith);
  last_is = omega arith;
  idle = ground arith;
}

-- A disk that holds the five letters.
abbrev disk : Device
disk t p = if p == 0x1F0 then sector_word letters 5 (taken primary t) else 0x50

disk-Gives : Gives primary (stored primary (write28 primary 7 letters 5 (steady 0x50) []).1) disk
disk-Gives t h =
    ground arith
    ∙ sym (
        stored_lem (taken primary t) primary 7 5 letters (steady 0x50) [] (omega arith)
          (omega arith) letters_small h)

read28-write28_example :
    let r = read28 0 primary 7 5 disk [] in
    (r.0 ≡ some tt)
    × (shown r.1 ≡ with_bytes ([] ++ codes "Reading ATA Drive: ") letters 5)
    × (taken primary r.1 ≡ 256)
read28-write28_example =
    read28-write28 0 primary 7 5 0x50 letters (steady 0x50) disk [] [] (omega arith) (omega arith)
      (λ n. (omega arith, omega arith)) disk-Gives
      (record {
        busy_reads = 0;
        in_time = omega arith;
        busy_before = λ j h. absurd (omega arith);
        last_is = refl;
        idle = refl;
      })
      refl

read28_error_example :
    let r = read28 0 primary 7 5 (steady 0x51) [] in
    (r.0 ≡ some tt) × (shown r.1 ≡ [] ++ codes "ERROR") × (taken primary r.1 ≡ 0)
read28_error_example =
    read28_error 0 primary 7 5 0x51 (steady 0x51) [] (omega arith)
      (settled 0x51 (select_sector primary 7 0x20 (steady 0x51) []).1) refl
