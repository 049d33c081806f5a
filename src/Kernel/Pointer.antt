-- ===== src/Kernel/Pointer.antt =====
-- MouseToConsole of source/src/kernel.cpp: the mouse pointer on the text screen.
use implementing_os_and_syst.Base.{
  ℕ, ◌+◌, ◌-◌, ◌*◌, ◌/◌, ◌%◌, ◌^◌, ◌≤◌, ◌<◌, ◌≡◌, ◌≢◌, refl, ap, ◌∙◌, leb, if◌then◌else◌, arith,
  ◌⊎◌, ℕ_discrete,
}
use implementing_os_and_syst.Kernel.Console.{set_cell}

-- The screen, with the position of the pointer: `x` and `y` are an `int8_t` that OnMouseMove leaves
-- between 0 and 79, and 0 and 24.
pub record MouseToConsole : Type 0 where
  pub video : ℕ → ℕ
  pub x : ℕ
  pub y : ℕ

-- The cell with its two colours exchanged.
unfoldable pub invert : ℕ → ℕ
invert cell = cell / 256 % 16 * 4096 + cell / 4096 % 16 * 256 + cell % 256

abbrev pub invert_at : ℕ → (ℕ → ℕ) → ℕ → ℕ
invert_at i video = set_cell i (invert (video i)) video

unfoldable pub mouse_to_console : (ℕ → ℕ) → MouseToConsole
mouse_to_console video = record { video = invert_at (80 * 12 + 40) video; x = 40; y = 12 }

-- `v += offset; if(v >= bound) v = bound - 1; if(v < 0) v = 0;` on an `int8_t`, the offset the 32-bit
-- pattern of an `int`.
unfoldable pub move : ℕ → ℕ → ℕ → ℕ
move bound v offset =
    let w = (v + offset) % 2 ^ 8 in if leb 128 w then 0 else if leb bound w then bound - 1 else w

unfoldable pub on_mouse_move : ℕ → ℕ → MouseToConsole → MouseToConsole
on_mouse_move xoffset yoffset s =
    let x' = move 80 s.x xoffset in
    let y' = move 25 s.y yoffset in
    record { video = invert_at (80 * y' + x') (invert_at (80 * s.y + s.x) s.video); x = x'; y = y' }

-- The screen is `plain` with the cell under the pointer inverted, and the pointer is on the screen.
pub record Pointing (plain : ℕ → ℕ) (s : MouseToConsole) : Type 0 where
  pub column : s.x < 80
  pub row : s.y < 25
  pub at_pointer : s.video (80 * s.y + s.x) ≡ invert (plain (80 * s.y + s.x))
  pub elsewhere : (i : ℕ) → i ≢ 80 * s.y + s.x → s.video i ≡ plain i

invert_twice : (cell : ℕ) → cell < 2 ^ 16 → invert (invert cell) ≡ cell
unfolding invert
invert_twice cell h = omega arith

-- The constructor inverts the cell in the middle of the screen, on which it puts the pointer.
pub mouse_to_console-Pointing : (plain : ℕ → ℕ) → Pointing plain (mouse_to_console plain)
unfolding mouse_to_console
mouse_to_console-Pointing plain = record {
  column = omega arith;
  row = omega arith;
  at_pointer = refl;
  elsewhere = λ i o. ground arith;
}

invert_at_here : (i : ℕ) (v : ℕ → ℕ) → invert_at i v i ≡ invert (v i)
invert_at_here i v = ground arith

invert_at_there : (i j : ℕ) (v : ℕ → ℕ) → j ≢ i → invert_at i v j ≡ v j
invert_at_there i j v o = ground arith

move_small : (bound v offset : ℕ) → 0 < bound → bound < 128 → move bound v offset < bound
unfolding move
move_small bound v offset p q = ground arith

-- Every move of the mouse keeps the pointer on the screen, gives the cell that it leaves the
-- colours that it had, and inverts the cell that it comes to, when the cells are 16 bits wide.
pub on_mouse_move-Pointing :
    (plain : ℕ → ℕ) (xoffset yoffset : ℕ) (s : MouseToConsole)
    → ((i : ℕ) → plain i < 2 ^ 16)
    → Pointing plain s
    → Pointing plain (on_mouse_move xoffset yoffset s)
unfolding on_mouse_move
on_mouse_move-Pointing plain xoffset yoffset s w h =
    let a = 80 * s.y + s.x in
    let restored : (i : ℕ) → invert_at a s.video i ≡ plain i = λ i. elim (ℕ_discrete i a) [
      | yes e ↦ rw e (ground (arith, h.at_pointer, invert_twice (plain a) (w a)))
      | no o ↦ ground (arith, h.elsewhere i o)
    ] in
    record {
      column = move_small 80 s.x xoffset (omega arith) (omega arith);
      row = move_small 25 s.y yoffset (omega arith) (omega arith);
      at_pointer = invert_at_here _ (invert_at a s.video) ∙ ap invert (restored _);
      elsewhere = λ i o. invert_at_there _ i (invert_at a s.video) o ∙ restored i;
    }

-- A move to the right stops at the last column only while `x + xoffset` is below 128: from there on
-- the sum is a negative `int8_t`, and the pointer jumps to the first column.
pub on_mouse_move_right :
    (xoffset yoffset : ℕ) (s : MouseToConsole)
    → s.x < 80
    → xoffset < 128
    → ((s.x + xoffset < 80) × ((on_mouse_move xoffset yoffset s).x ≡ s.x + xoffset))
      ⊎ ((80 ≤ s.x + xoffset) × (s.x + xoffset < 128) × ((on_mouse_move xoffset yoffset s).x ≡ 79))
      ⊎ ((128 ≤ s.x + xoffset) × ((on_mouse_move xoffset yoffset s).x ≡ 0))
unfolding on_mouse_move move
on_mouse_move_right xoffset yoffset s h k = ground arith
