-- ===== src/Ports.antt =====
-- source/include/hardwarecommunication/port.h and source/src/hardwarecommunication/port.cpp: the accesses of
-- the drivers to their devices, as actions on the trace of what has passed between them.
pub mod Polling
pub mod Trace
use implementing_os_and_syst.Base.{
  ℕ, ◌%◌, ◌^◌, ◌≡◌, ap, Bool, Option, some, none, List, ◌∷◌, if◌then◌else◌, arith,
}

-- How many bits an access carries.
pub data Width : Type 0 where
  byte word dword : Width

abbrev pub modulus : Width → ℕ
modulus byte = 2 ^ 8
modulus word = 2 ^ 16
modulus dword = 2 ^ 32

-- An access names its port and its value; a call of printf the characters that it comes to.
pub data Event : Type 0 where
  received sent : Width → ℕ → ℕ → Event
  printed : List ℕ → Event

-- The device decides by what has passed, newest first, what the next read of a port gives.
abbrev pub Device : Type 0
Device = List Event → ℕ → ℕ

-- `none` where a loop has not ended within its fuel.
abbrev pub Io : Type 0 → Type 0
Io A = Device → List Event → Option A × List Event

module _ {A : Type 0} where
  abbrev pub pure : A → Io A
  pure a d t = (some a, t)

  abbrev pub stuck : Io A
  stuck d t = (none, t)

abbrev pub and_then :
    {A B : Type 0} → (A → Io B) → Device → Option A × List Event → Option B × List Event
and_then f d (some a, t) = f a d t
and_then f d (none, t) = (none, t)

infixl 5 ◌>>=◌ ◌>>◌
abbrev pub ◌>>=◌ : {A B : Type 0} → Io A → (A → Io B) → Io B
◌>>=◌ m f d t = and_then f d (m d t)

abbrev pub ◌>>◌ : {A B : Type 0} → Io A → Io B → Io B
m >> k = m >>= λ _. k

-- A statement under an `if` with no `else`.
abbrev pub when : Bool → Io Unit → Io Unit
when c m = if c then m else pure tt

abbrev pub print : List ℕ → Io Unit
print text d t = (some tt, printed text ∷ t)

-- A Port8Bit, Port16Bit or Port32Bit: the number of a port has 16 bits.
pub record Port : Type 0 where
  pub width : Width
  pub number : ℕ

abbrev pub port8 : ℕ → Port
port8 n = record { width = byte; number = n % 2 ^ 16 }

abbrev pub port16 : ℕ → Port
port16 n = record { width = word; number = n % 2 ^ 16 }

abbrev pub port32 : ℕ → Port
port32 n = record { width = dword; number = n % 2 ^ 16 }

-- Port8Bit::Read, Port16Bit::Read, Port32Bit::Read.
abbrev pub read : Port → Io ℕ
read p d t = let v = d t p.number % modulus p.width in (some v, received p.width p.number v ∷ t)

-- Port8Bit::Write, Port8BitSlow::Write, Port16Bit::Write, Port32Bit::Write: the value is cut to the width.
abbrev pub write : Port → ℕ → Io Unit
write p v d t = (some tt, sent p.width p.number (v % modulus p.width) ∷ t)

-- Behind an action that ends, the next one goes on from its trace.
pub and_then_lem :
    {A B : Type 0} (f : A → Io B) (d : Device) (r : Option A × List Event) (a : A)
    → r.0 ≡ some a
    → and_then f d r ≡ f a d r.1
and_then_lem f d (some b, t) a e = ground arith
and_then_lem f d (none, t) a e = ground arith
