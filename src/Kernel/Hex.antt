-- ===== src/Kernel/Hex.antt =====
-- printfHex and its two wider forms, and the handlers of source/src/kernel.cpp that only print.
use implementing_os_and_syst.Base.{
  ℕ, ◌+◌, ◌*◌, ◌/◌, ◌%◌, ◌^◌, ◌<◌, ◌≡◌, refl, ap, ◌∙◌, List, [], ◌∷◌, ◌++◌, codes, get_or, leb,
  ◌==◌, if◌then◌else◌, arith, true, ==_iff, length, ◌-◌,
}
use implementing_os_and_syst.Base.Bits.{range_passes, range_passes_at}
use implementing_os_and_syst.Kernel.Console.{Console, printf, printf-append}
use implementing_os_and_syst.Kernel.Integers.{print_integer}

-- `hex[n]`, for n below 16.
abbrev pub hex_digit : ℕ → ℕ
hex_digit n = get_or (codes "0123456789ABCDEF") n 0

-- The two characters of printfHex.
unfoldable pub hex_text : ℕ → List ℕ
hex_text key = hex_digit (key / 16 % 16) ∷ hex_digit (key % 16) ∷ []

-- printfHex.
pub printf_hex : ℕ → Console → Console
printf_hex key s = printf (hex_text key) s

-- printfHex16.
pub printf_hex16 : ℕ → Console → Console
printf_hex16 key s = printf_hex (key % 256) (printf_hex (key / 2 ^ 8 % 256) s)

-- printfHex32.
pub printf_hex32 : ℕ → Console → Console
printf_hex32 key s = printf_hex (key % 256) (
    printf_hex (key / 2 ^ 8 % 256)
      (printf_hex (key / 2 ^ 16 % 256) (printf_hex (key / 2 ^ 24 % 256) s)))

-- PrintfKeyboardEventHandler::OnKeyDown.
pub print_key_down : ℕ → Console → Console
print_key_down c s = printf (c ∷ []) s

-- MouseToConsole::OnMouseUp.
unfoldable pub print_mouse_up : ℕ → Console → Console
print_mouse_up button s =
    printf (codes "\n") (print_integer button (printf (codes "Mouse Button ") s))

-- The value of a hexadecimal digit, and of a text of those.
abbrev pub digit_value : ℕ → ℕ
digit_value c = if leb b'A' c then c + 10 - b'A' else c - b'0'

abbrev pub hex_value : ℕ → List ℕ → ℕ
hex_value n [] = n
hex_value n (c ∷ cs) = hex_value (n * 16 + digit_value c) cs

digits_read : range_passes (λ n. digit_value (hex_digit n) == n) 16 ≡ true
unfolding range_passes
digits_read = refl

digit_value-hex_digit : (n : ℕ) → n < 16 → digit_value (hex_digit n) ≡ n
digit_value-hex_digit n h =
    (==_iff (digit_value (hex_digit n)) n).0
      (range_passes_at (λ m. digit_value (hex_digit m) == m) 16 n h digits_read)

hex_value-hex_text :
    (key n : ℕ) (rest : List ℕ)
    → hex_value n (hex_text key ++ rest) ≡ hex_value (n * 256 + key % 256) rest
unfolding hex_text
hex_value-hex_text key n rest =
    ap (λ (v : ℕ). hex_value ((n * 16 + v) * 16 + digit_value (hex_digit (key % 16))) rest)
      (digit_value-hex_digit (key / 16 % 16) (omega arith))
    ∙ ap (λ (v : ℕ). hex_value ((n * 16 + key / 16 % 16) * 16 + v) rest)
        (digit_value-hex_digit (key % 16) (omega arith))
    ∙ ap (λ (v : ℕ). hex_value v rest) {x = (n * 16 + key / 16 % 16) * 16 + key % 16}
        {y = n * 256 + key % 256} (omega arith)

-- The eight characters of printfHex32.
pub hex_text32 : ℕ → List ℕ
hex_text32 key =
    hex_text (key / 2 ^ 24 % 256)
    ++ (hex_text (key / 2 ^ 16 % 256)
        ++ (hex_text (key / 2 ^ 8 % 256) ++ (hex_text (key % 256) ++ [])))

-- printfHex32 of a 32-bit word prints one text of eight characters, the hexadecimal numeral of the word.
pub printf_hex32_lem :
    (key : ℕ) (s : Console)
    → key < 2 ^ 32
    → (printf_hex32 key s ≡ printf (hex_text32 key) s)
      × (length (hex_text32 key) ≡ 8)
      × (hex_value 0 (hex_text32 key) ≡ key)
unfolding printf_hex32 hex_text32 printf_hex hex_text
printf_hex32_lem key s h =
    let a = key / 2 ^ 24 % 256 in
    let b = key / 2 ^ 16 % 256 in
    let c = key / 2 ^ 8 % 256 in
    let e = key % 256 in
    (
      ap (λ t. printf (hex_text e) (printf (hex_text c) t))
            (printf-append (hex_text a) (hex_text b) s)
          ∙ ap (printf (hex_text e)) (printf-append (hex_text a ++ hex_text b) (hex_text c) s)
          ∙ printf-append (hex_text a ++ (hex_text b ++ hex_text c)) (hex_text e) s,
      refl,
      hex_value-hex_text a 0 (hex_text b ++ (hex_text c ++ (hex_text e ++ [])))
          ∙ hex_value-hex_text b (0 * 256 + a % 256) (hex_text c ++ (hex_text e ++ []))
          ∙ hex_value-hex_text c ((0 * 256 + a % 256) * 256 + b % 256) (hex_text e ++ [])
          ∙ hex_value-hex_text e (((0 * 256 + a % 256) * 256 + b % 256) * 256 + c % 256) []
          ∙ omega arith,
    )
