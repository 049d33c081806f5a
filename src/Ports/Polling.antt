-- ===== src/Ports/Polling.antt =====
-- The loop of source/src/drivers/ata.cpp that reads a status port as long as the device is busy.
use implementing_os_and_syst.Base.{
  ℕ, zero, suc, ◌/◌, ◌%◌, ◌≤◌, ◌<◌, ◌≡◌, ap, ◌∙◌, Bool, true, false, not, ◌&&◌, some, none, List,
  ◌∷◌, ◌==◌, if◌then◌else◌, arith,
}
use implementing_os_and_syst.Ports.{
  Event, received, Device, Io, Port, pure, stuck, read, modulus, ◌>>=◌,
}

-- `(status & 0x80) == 0x80 && (status & 0x01) != 0x01`.
abbrev pub is_busy : ℕ → Bool
is_busy status = (status / 128 % 2 == 1) && not (status % 2 == 1)

-- `while(is_busy(status)) status = port.Read();`, at most `fuel` times.
pub poll : ℕ → Port → ℕ → Io ℕ
poll zero p status = if is_busy status then stuck else pure status
poll (suc fuel) p status = if is_busy status then read p >>= poll fuel p else pure status

-- What a read gives, and the trace behind it.
abbrev pub given : Port → Device → List Event → ℕ
given p d t = d t p.number % modulus p.width

abbrev pub after_read : Port → Device → List Event → List Event
after_read p d t = received p.width p.number (given p d t) ∷ t

-- The trace behind a number of reads of a port.
abbrev pub after_reads : Port → Device → ℕ → List Event → List Event
after_reads p d zero t = t
after_reads p d (suc n) t = after_reads p d n (after_read p d t)

-- The status that the loop looks at in its round `n`.
abbrev pub answer : Port → Device → ℕ → List Event → ℕ → ℕ
answer p d status t zero = status
answer p d status t (suc n) = answer p d (given p d t) (after_read p d t) n

-- The loop ends with the first answer that is not busy, after as many reads, with any fuel that allows
-- for those.
pub poll_ends :
    (n fuel : ℕ) (p : Port) (d : Device) (status : ℕ) (t : List Event)
    → n ≤ fuel
    → ((j : ℕ) → j < n → is_busy (answer p d status t j) ≡ true)
    → is_busy (answer p d status t n) ≡ false
    → poll fuel p status d t ≡ (some (answer p d status t n), after_reads p d n t)
unfolding poll
poll_ends zero zero p d status t h busy idle = rw idle
poll_ends zero (suc fuel) p d status t h busy idle = rw idle
poll_ends (suc n) zero p d status t h busy idle = absurd (omega arith)
poll_ends (suc n) (suc fuel) p d status t h busy idle = rw (busy 0 (omega arith)) (
    poll_ends n fuel p d (given p d t) (after_read p d t) (omega arith)
      (λ j k. busy (suc j) (omega arith)) idle)

-- As long as every answer is busy the loop does not end, however much fuel it has.
pub poll_waits :
    (fuel : ℕ) (p : Port) (d : Device) (status : ℕ) (t : List Event)
    → ((j : ℕ) → j ≤ fuel → is_busy (answer p d status t j) ≡ true)
    → poll fuel p status d t ≡ (none, after_reads p d fuel t)
unfolding poll
poll_waits zero p d status t busy = rw (busy 0 (omega arith))
poll_waits (suc fuel) p d status t busy =
    rw (busy 0 (omega arith))
      (poll_waits fuel p d (given p d t) (after_read p d t) (λ j k. busy (suc j) (omega arith)))

-- The first answer that is not busy comes within the fuel, after `busy_reads` that are, and is `last`.
pub record Settles (fuel : ℕ) (p : Port) (d : Device) (t : List Event) (last : ℕ) : Type 0 where
  pub busy_reads : ℕ
  pub in_time : busy_reads ≤ fuel
  pub busy_before :
      (j : ℕ) → j < busy_reads → is_busy (answer p d (given p d t) (after_read p d t) j) ≡ true
  pub last_is : answer p d (given p d t) (after_read p d t) busy_reads ≡ last
  pub idle : is_busy last ≡ false

-- A first read and the loop behind it.
pub poll-Settles :
    (fuel : ℕ) (p : Port) (d : Device) (t : List Event) (last : ℕ)
    → (s : Settles fuel p d t last)
    → poll fuel p (given p d t) d (after_read p d t)
      ≡ (some last, after_reads p d s.busy_reads (after_read p d t))
poll-Settles fuel p d t last s =
    poll_ends s.busy_reads fuel p d (given p d t) (after_read p d t) s.in_time s.busy_before
      (ap is_busy s.last_is ∙ s.idle)
    ∙ ap (λ v. (some v, after_reads p d s.busy_reads (after_read p d t))) s.last_is
