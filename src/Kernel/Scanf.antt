-- ===== src/Kernel/Scanf.antt =====
-- IntegerScanfKeyboardEventHandler and scanf of source/src/kernel.cpp. `OnKeyDown` prints from the address of
-- its one character on: what stands in memory behind it, up to the next zero, is the parameter `tail`.
use implementing_os_and_syst.Base.{
  ℕ, zero, suc, ◌+◌, ◌-◌, ◌*◌, ◌/◌, ◌%◌, ◌^◌, ◌<◌, ◌≡◌, ◌≢◌, refl, ap, ◌∙◌, List, [], ◌∷◌, ◌++◌,
  leb, ◌==◌, not, ◌&&◌, Bool, true, false, Option, none, some, if◌then◌else◌, arith, Bool-cases,
  inl, inr,
}
use implementing_os_and_syst.Kernel.Console.{Console, printf}
use implementing_os_and_syst.Kernel.Integers.{digits_loop, int_to_string, is_negative, negate}

pub record IntegerScanf : Type 0 where
  pub value : ℕ
  pub completed : Bool
  pub negative : Bool

-- The constructor and `Reset`.
abbrev pub reset : IntegerScanf
reset = record { value = 0; completed = false; negative = false }

-- The value and the flags after a key, when the input is not completed.
abbrev pub read_key : ℕ → IntegerScanf → IntegerScanf
read_key c h =
    if c == b'\n'
    then record h { value = if h.negative then negate h.value else h.value; completed = true }
    else if c == b'-' && (h.value == 0 && not h.negative)
    then record h { negative = true }
    else if leb b'0' c && leb c b'9'
    then record h { value = (h.value * 10 + (c - b'0')) % 2 ^ 32 }
    else h

-- printf of the address of the character `c`.
abbrev pub echo : ℕ → List ℕ → Console → Console
echo c tail s = if c == 0 then s else printf (c ∷ tail) s

unfoldable pub on_key_down : List ℕ → ℕ → IntegerScanf × Console → IntegerScanf × Console
on_key_down tail c p = if p.0.completed then p else (read_key c p.0, echo c tail p.1)

-- The keys that are pressed while scanf waits, each with the bytes behind its character.
pub type_keys : (ℕ → List ℕ) → List ℕ → IntegerScanf × Console → IntegerScanf × Console
type_keys tails [] p = p
type_keys tails (c ∷ cs) p = type_keys (λ i. tails (suc i)) cs (on_key_down (tails 0) c p)

-- scanf: the handler is reset, keys come in until the input is completed, and the value is read.
unfoldable pub scanf : (ℕ → List ℕ) → List ℕ → Console → Option ℕ
scanf tails keys s =
    let p = type_keys tails keys (reset, s) in if p.0.completed then some p.0.value else none

-- The handler's part of a key, and of a list of keys.
unfoldable step_key : ℕ → IntegerScanf → IntegerScanf
step_key c h = if h.completed then h else read_key c h

read_keys : List ℕ → IntegerScanf → IntegerScanf
read_keys [] h = h
read_keys (c ∷ cs) h = read_keys cs (step_key c h)

if_fst :
    (b : Bool) (p q : IntegerScanf × Console) → (if b then p else q).0 ≡ (if b then p.0 else q.0)
if_fst true p q = refl
if_fst false p q = refl

type_keys-read_keys :
    (tails : ℕ → List ℕ) (cs : List ℕ) (p : IntegerScanf × Console)
    → (type_keys tails cs p).0 ≡ read_keys cs p.0
unfolding type_keys read_keys on_key_down step_key
type_keys-read_keys tails [] p = refl
type_keys-read_keys tails (c ∷ cs) p =
    type_keys-read_keys (λ i. tails (suc i)) cs (on_key_down (tails 0) c p)
    ∙ ap (read_keys cs) (if_fst p.0.completed p (read_key c p.0, echo c (tails 0) p.1))

step_digit :
    (d v : ℕ) (neg : Bool)
    → d < 10
    → step_key (d + b'0') (record { value = v; completed = false; negative = neg })
      ≡ record { value = (v * 10 + d) % 2 ^ 32; completed = false; negative = neg }
unfolding step_key
step_digit d v neg h = ground arith

-- Reading the digits of `num` in front of the keys `temp` leaves those keys to read from `num` on.
read_digits :
    (k num : ℕ) (temp : List ℕ) (neg : Bool)
    → num < 10 ^ suc k
    → num < 2 ^ 32
    → read_keys (digits_loop k num temp) (record { value = 0; completed = false; negative = neg })
      ≡ read_keys temp (record { value = num; completed = false; negative = neg })
unfolding digits_loop read_keys
read_digits zero num temp neg h l = ap (read_keys temp) (
    step_digit (num % 10) 0 neg (omega arith)
    ∙ ap (λ v. record { value = v; completed = false; negative = neg }) (omega arith))
read_digits (suc k) num temp neg h l = elim (Bool-cases (num / 10 == 0)) [
  | inl t ↦ rw t (
      ap (read_keys temp) (
        step_digit (num % 10) 0 neg (omega arith)
        ∙ ap (λ v. record { value = v; completed = false; negative = neg }) (ground (arith, t))))
  | inr f ↦ rw f (
      read_digits k (num / 10) _ neg (omega arith) (omega arith)
      ∙ ap (read_keys temp) (
          step_digit (num % 10) (num / 10) neg (omega arith)
          ∙ ap (λ v. record { value = v; completed = false; negative = neg }) (omega arith)))
]

read_keys_completed :
    (cs : List ℕ) (v : ℕ) (neg : Bool)
    → read_keys cs (record { value = v; completed = true; negative = neg })
      ≡ record { value = v; completed = true; negative = neg }
unfolding read_keys step_key
read_keys_completed [] v neg = refl
read_keys_completed (k ∷ cs) v neg = read_keys_completed cs v neg

digits_loop-append :
    (k num : ℕ) (temp more : List ℕ)
    → digits_loop k num temp ++ more ≡ digits_loop k num (temp ++ more)
unfolding digits_loop
digits_loop-append zero num temp more = refl
digits_loop-append (suc k) num temp more = elim (Bool-cases (num / 10 == 0)) [
  | inl t ↦ rw t refl
  | inr f ↦ rw f (digits_loop-append k (num / 10) _ more)
]

-- Reading a line break, then any further keys.
read_enter :
    (v : ℕ) (neg : Bool) (more : List ℕ)
    → read_keys (b'\n' ∷ more) (record { value = v; completed = false; negative = neg })
      ≡ record { value = if neg then negate v else v; completed = true; negative = neg }
unfolding read_keys step_key
read_enter v neg more = read_keys_completed more _ neg

-- Reading the text of `num`, a line break and any further keys.
read_text :
    (num : ℕ) (more : List ℕ)
    → num < 2 ^ 32
    → read_keys (int_to_string num 20 ++ b'\n' ∷ more) reset
      ≡ record { value = num; completed = true; negative = is_negative num }
unfolding int_to_string read_keys step_key
read_text num more h = elim (Bool-cases (is_negative num)) [
  | inl t ↦ rw t (
      ap (λ l. read_keys l (record { value = 0; completed = false; negative = true }))
        (digits_loop-append 18 (negate num) [] _)
      ∙ read_digits 18 (negate num) _ true (omega arith) (omega arith)
      ∙ read_enter (negate num) true more
      ∙ ap (λ v. record { value = v; completed = true; negative = true }) (ground (arith, t)))
  | inr f ↦ rw f (
      ap (λ l. read_keys l reset) (digits_loop-append 19 num [] _)
      ∙ read_digits 19 num _ false (omega arith) h
      ∙ read_enter num false more)
]

-- scanf reads back what print_integer prints: when the keys are the decimal text of an `int` other than
-- the smallest, a line break, and any further keys, scanf returns that `int`, whatever stood on the
-- screen and in memory behind the characters.
pub scanf-int_to_string :
    (num : ℕ) (more : List ℕ) (tails : ℕ → List ℕ) (s : Console)
    → num < 2 ^ 32
    → num ≢ 2 ^ 31
    → scanf tails (int_to_string num 20 ++ b'\n' ∷ more) s ≡ some num
unfolding scanf
scanf-int_to_string num more tails s h m =
    rw
      (type_keys-read_keys tails (int_to_string num 20 ++ b'\n' ∷ more) (reset, s)
        ∙ read_text num more h)
      refl
