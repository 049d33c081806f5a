-- ===== src/Drivers/Keyboard.antt =====
-- KeyboardDriver of source/src/drivers/keyboard.cpp. The bytes that the ports give are arguments.
pub mod Activation
use implementing_os_and_syst.Base.{
  ℕ, ◌+◌, ◌<◌, ◌≡◌, ◌≢◌, refl, ap, subst, false≢true, ◌∙◌, Bool, true, false, Option, none, some,
  List, [], ◌∷◌, ◌++◌, codes, ltb, ◌==◌, if◌then◌else◌, arith, ◌&&◌, Option-cases, inl, inr, bit_or,
  bit_and, All,
}
use implementing_os_and_syst.Base.Bits.{range_passes, range_passes_at}

-- The cases of the switch.
abbrev pub keys : List (ℕ × ℕ)
keys =
    (0x02, b'1')
    ∷ (0x03, b'2')
    ∷ (0x04, b'3')
    ∷ (0x05, b'4')
    ∷ (0x06, b'5')
    ∷ (0x07, b'6')
    ∷ (0x08, b'7')
    ∷ (0x09, b'8')
    ∷ (0x0A, b'9')
    ∷ (0x0B, b'0')
    ∷ (0x10, b'q')
    ∷ (0x11, b'w')
    ∷ (0x12, b'e')
    ∷ (0x13, b'r')
    ∷ (0x14, b't')
    ∷ (0x15, b'z')
    ∷ (0x16, b'u')
    ∷ (0x17, b'i')
    ∷ (0x18, b'o')
    ∷ (0x19, b'p')
    ∷ (0x1E, b'a')
    ∷ (0x1F, b's')
    ∷ (0x20, b'd')
    ∷ (0x21, b'f')
    ∷ (0x22, b'g')
    ∷ (0x23, b'h')
    ∷ (0x24, b'j')
    ∷ (0x25, b'k')
    ∷ (0x26, b'l')
    ∷ (0x2C, b'y')
    ∷ (0x2D, b'x')
    ∷ (0x2E, b'c')
    ∷ (0x2F, b'v')
    ∷ (0x30, b'b')
    ∷ (0x31, b'n')
    ∷ (0x32, b'm')
    ∷ (0x33, b',')
    ∷ (0x34, b'.')
    ∷ (0x35, b'-')
    ∷ (0x1C, b'\n')
    ∷ (0x39, b' ')
    ∷ []

-- The character of a key, when a case is for it.
unfoldable pub char_of : List (ℕ × ℕ) → ℕ → Option ℕ
char_of [] key = none
char_of (k ∷ ks) key = let rest = char_of ks key in if key == k.0 then some k.1 else rest

-- What an interrupt makes the driver do: a call of OnKeyDown, or the message with the key's number.
pub data KeyEvent : Type 0 where
  key_down : ℕ → KeyEvent
  unknown_key : ℕ → KeyEvent

-- HandleInterrupt, for the byte of the data port; it returns its argument `esp` whatever it does.
unfoldable pub handle_interrupt : Bool → ℕ → List KeyEvent
handle_interrupt has_handler key =
    if has_handler
    then if ltb key 0x80
      then elim (char_of keys key) [ none ↦ unknown_key key ∷ [] | some c ↦ key_down c ∷ [] ]
      else []
    else []

-- The layout of the keyboard, a German one: along a row of it the codes of the keys count up from that of the
-- first; then Enter and the space bar.
abbrev pub rows : List (ℕ × List ℕ)
rows =
    (0x02, codes "1234567890")
    ∷ (0x10, codes "qwertzuiop")
    ∷ (0x1E, codes "asdfghjkl")
    ∷ (0x2C, codes "yxcvbnm,.-")
    ∷ (0x1C, codes "\n")
    ∷ (0x39, codes " ")
    ∷ []

-- The key of a character, in a row whose first key has the code `k`, and in the layout.
unfoldable pub key_in : ℕ → List ℕ → ℕ → Option ℕ
key_in k [] c = none
key_in k (x ∷ xs) c = let rest = key_in (k + 1) xs c in if c == x then some k else rest

unfoldable pub key_of : List (ℕ × List ℕ) → ℕ → Option ℕ
key_of [] c = none
key_of (r ∷ rs) c = elim (key_in r.0 r.1 c) [ none ↦ key_of rs c | some k ↦ some k ]

-- The bytes of the keyboard when the key of each character is pressed and released.
abbrev pub press_bytes : Option ℕ → List ℕ → List ℕ
press_bytes none rest = rest
press_bytes (some k) rest = k ∷ (k + 0x80) ∷ rest

pub presses : List ℕ → List ℕ
presses [] = []
presses (c ∷ cs) = press_bytes (key_of rows c) (presses cs)

pub handle_bytes : List ℕ → List KeyEvent
handle_bytes [] = []
handle_bytes (b ∷ bs) = handle_interrupt true b ++ handle_bytes bs

-- The characters that have a key in the layout.
abbrev pub HasKey : ℕ → Type 0
HasKey c = (c < 128) × (key_of rows c ≢ none)

abbrev pub downs : List ℕ → List KeyEvent
downs [] = []
downs (c ∷ cs) = key_down c ∷ downs cs

abbrev is_char : ℕ → Option ℕ → Bool
is_char c none = false
is_char c (some d) = c == d

abbrev is_key : ℕ → Option ℕ → Bool
is_key c none = true
is_key c (some k) = ltb k 0x80 && is_char c (char_of keys k)

abbrev key_matches : ℕ → Bool
key_matches c = is_key c (key_of rows c)

all_match : range_passes key_matches 128 ≡ true
unfolding range_passes char_of key_of key_in
all_match = refl

press : (k c : ℕ) → k < 0x80 → char_of keys k ≡ some c → handle_interrupt true k ≡ key_down c ∷ []
unfolding handle_interrupt
press k c l e = rw e (ground arith)

key_released : (k : ℕ) → handle_interrupt true (k + 0x80) ≡ []
unfolding handle_interrupt
key_released k = ground arith

is_char_sound : (c : ℕ) (o : Option ℕ) → is_char c o ≡ true → o ≡ some c
is_char_sound c none h = absurd (false≢true h)
is_char_sound c (some d) h = ground (arith, h)

-- A key that gives a character is below 0x80.
key_of_found : (c k : ℕ) → c < 128 → key_of rows c ≡ some k → (k < 0x80) × (char_of keys k ≡ some c)
key_of_found c k l e =
    let m : is_key c (some k) ≡ true =
      subst (λ o. is_key c o ≡ true) e (range_passes_at key_matches 128 c l all_match) in
    (ground (arith, m), is_char_sound c (char_of keys k) (ground (arith, m)))

-- The driver reads the layout: for every text whose characters have keys in it, the bytes of pressing and releasing
-- those keys are one call of OnKeyDown for each character, with that character, and no other call.
pub handle_bytes-presses : (cs : List ℕ) → All HasKey cs → handle_bytes (presses cs) ≡ downs cs
unfolding presses handle_bytes
handle_bytes-presses [] h = refl
handle_bytes-presses (c ∷ cs) h = elim (Option-cases (key_of rows c)) [
  | inl n ↦ absurd (h.0.1 n)
  | inr (k, e) ↦
      let f = key_of_found c k h.0.0 e in
      ap (λ o. handle_bytes (press_bytes o (presses cs))) e
      ∙ rw (press k c f.0 f.1, key_released k)
          (ap (λ l. key_down c ∷ l) (handle_bytes-presses cs h.1))
]
