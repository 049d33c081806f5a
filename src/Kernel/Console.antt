-- ===== src/Kernel/Console.antt =====
-- printf of source/src/kernel.cpp: characters on the 80 by 25 text screen.
use implementing_os_and_syst.Base.{
  ℕ, zero, suc, ◌+◌, ◌*◌, ◌/◌, ◌%◌, ◌≤◌, ◌<◌, ◌≡◌, ◌≢◌, refl, ap, subst, ◌∙◌, ◌⊎◌, List, [], ◌∷◌,
  ◌++◌, length, All, ltb, leb, ◌==◌, if◌then◌else◌, arith,
}

-- `VideoMemory`, a 16-bit cell for each position, the colours in its high byte; `x` and `y` are the
-- static variables of printf.
pub record Console : Type 0 where
  pub video : ℕ → ℕ
  pub x : ℕ
  pub y : ℕ

abbrev pub set_cell : ℕ → ℕ → (ℕ → ℕ) → ℕ → ℕ
set_cell i v video j = if i == j then v else video j

-- `(cell & 0xFF00) | c` in 16 bits; a `char` from 128 on is negative and sets the high byte too.
abbrev pub with_char : ℕ → ℕ → ℕ
with_char cell c = if ltb c 128 then cell / 256 % 256 * 256 + c else 0xFF00 + c

-- The inner loop of the clearing of the screen, over `k` columns from `x` on.
pub clear_row : ℕ → ℕ → ℕ → (ℕ → ℕ) → ℕ → ℕ
clear_row zero x y video = video
clear_row (suc k) x y video =
    clear_row k (x + 1) y (set_cell (80 * y + x) (with_char (video (80 * y + x)) b' ') video)

-- The outer loop, over `k` rows from `y` on.
pub clear_rows : ℕ → ℕ → (ℕ → ℕ) → ℕ → ℕ
clear_rows zero y video = video
clear_rows (suc k) y video = clear_rows k (y + 1) (clear_row 80 0 y video)

-- The switch on the character.
pub put_char : ℕ → Console → Console
put_char c s = if c == b'\n' then record s { x = 0; y = s.y + 1 } else record s {
  video = set_cell (80 * s.y + s.x) (with_char (s.video (80 * s.y + s.x)) c) s.video;
  x = s.x + 1;
}

pub wrap_line : Console → Console
wrap_line s = if leb 80 s.x then record s { x = 0; y = s.y + 1 } else s

pub wrap_screen : Console → Console
wrap_screen s = if leb 25 s.y then record { video = clear_rows 25 0 s.video; x = 0; y = 0 } else s

-- One round of the loop of printf.
pub print_char : ℕ → Console → Console
unfolding put_char wrap_line wrap_screen
print_char c s = wrap_screen (wrap_line (put_char c s))

-- printf on the characters in front of the terminating zero.
pub printf : List ℕ → Console → Console
printf [] s = s
printf (c ∷ cs) s = printf cs (print_char c s)

-- The cursor is on the screen.
pub record IsOnScreen (s : Console) : Type 0 where
  pub column : s.x < 80
  pub row : s.y < 25

-- `a` and `b` agree outside of the 2000 cells of the screen.
abbrev pub SameOutside : (ℕ → ℕ) → (ℕ → ℕ) → Type 0
SameOutside a b = (i : ℕ) → 2000 ≤ i → b i ≡ a i

clear_row-outside :
    (k x y : ℕ) (video : ℕ → ℕ) → x + k ≤ 80 → y < 25 → SameOutside video (clear_row k x y video)
unfolding clear_row
clear_row-outside zero x y video h p i lo = refl
clear_row-outside (suc k) x y video h p i lo =
    clear_row-outside k (x + 1) y _ (omega arith) p i lo ∙ ground arith

clear_rows-outside :
    (k y : ℕ) (video : ℕ → ℕ) → y + k ≤ 25 → SameOutside video (clear_rows k y video)
unfolding clear_rows
clear_rows-outside zero y video h i lo = refl
clear_rows-outside (suc k) y video h i lo =
    clear_rows-outside k (y + 1) _ (omega arith) i lo
    ∙ clear_row-outside 80 0 y video (omega arith) (omega arith) i lo

print_char-IsOnScreen :
    (c : ℕ) (s : Console)
    → IsOnScreen s
    → IsOnScreen (print_char c s) × SameOutside s.video (print_char c s).video
unfolding print_char
print_char-IsOnScreen c s v = (
  ground arith,
  λ i lo. ground (arith, clear_rows-outside 25 0 (put_char c s).video (omega arith) i lo),
)

-- printf of any text keeps the cursor on the screen and writes nothing but the 2000 cells of it.
pub printf-IsOnScreen :
    (cs : List ℕ) (s : Console)
    → IsOnScreen s
    → IsOnScreen (printf cs s) × SameOutside s.video (printf cs s).video
unfolding printf
printf-IsOnScreen [] s v = (v, λ i lo. refl)
printf-IsOnScreen (c ∷ cs) s v =
    let p = print_char-IsOnScreen c s v in
    let q = printf-IsOnScreen cs (print_char c s) p.0 in (q.0, λ i lo. q.1 i lo ∙ p.1 i lo)

-- The low bytes of the cells from `i` on are the characters.
abbrev pub Shows : (ℕ → ℕ) → ℕ → List ℕ → Type 0
Shows video i [] = Unit
Shows video i (c ∷ cs) = (video i % 256 ≡ c) × Shows video (i + 1) cs

Shows-at : (video : ℕ → ℕ) (cs : List ℕ) {i j : ℕ} → i ≡ j → Shows video i cs → Shows video j cs
Shows-at video cs e h = subst (λ k. Shows video k cs) e h

-- A character in ASCII other than the line break.
abbrev pub IsPlain : ℕ → Type 0
IsPlain c = (c < 128) × (c ≢ b'\n')

print_char_plain :
    (c : ℕ) (s : Console)
    → IsPlain c
    → s.x < 79
    → s.y < 25
    → print_char c s ≡ record s {
      video = set_cell (80 * s.y + s.x) (with_char (s.video (80 * s.y + s.x)) c) s.video;
      x = s.x + 1;
    }
unfolding print_char
print_char_plain c s p h k = ground arith

-- What printing a text that fits in the line leaves: the cursor behind it, the text in its cells, and
-- every other cell as it was.
pub record Printed (cs : List ℕ) (s t : Console) : Type 0 where
  pub at_x : t.x ≡ s.x + length cs
  pub at_y : t.y ≡ s.y
  pub shows : Shows t.video (80 * s.y + s.x) cs
  pub others :
      (i : ℕ) → (i < 80 * s.y + s.x) ⊎ (80 * s.y + s.x + length cs ≤ i) → t.video i ≡ s.video i

-- printf shows a text of plain characters that ends before the last column of the cursor's line, and
-- changes no cell but those of the text.
pub printf-Printed :
    (cs : List ℕ) (s : Console)
    → All IsPlain cs
    → s.x + length cs < 80
    → s.y < 25
    → Printed cs s (printf cs s)
unfolding printf
printf-Printed [] s p h k = record {
  at_x = omega arith;
  at_y = refl;
  shows = tt;
  others = λ i o. refl;
}
printf-Printed (c ∷ cs) s p h k =
    let ih =
      printf-Printed cs
        (record s {
          video = set_cell (80 * s.y + s.x) (with_char (s.video (80 * s.y + s.x)) c) s.video;
          x = s.x + 1;
        })
        p.1 (omega arith) k in
    rw (print_char_plain c s p.0 (omega arith) k) (record {
      at_x = omega (arith, ih.at_x);
      at_y = ih.at_y;
      shows = (
        ap (λ v. v % 256) (ih.others (80 * s.y + s.x) (omega arith)) ∙ ground arith,
        Shows-at _ cs (omega arith) ih.shows,
      );
      others = λ i o. ih.others i (omega arith) ∙ ground arith;
    })

-- Two texts, one after the other.
pub printf-append : (xs ys : List ℕ) (s : Console) → printf ys (printf xs s) ≡ printf (xs ++ ys) s
unfolding printf
printf-append [] ys s = refl
printf-append (x ∷ xs) ys s = printf-append xs ys (print_char x s)

pub printf_empty : (s : Console) → printf [] s ≡ s
unfolding printf
printf_empty s = refl
