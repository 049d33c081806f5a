-- ===== src/Drivers/Vga.antt =====
-- VideoGraphicsArray of source/src/drivers/vga.cpp: pixels and rectangles. The byte that the graphics
-- controller gives for its register 6 is an argument, `gc`.
pub mod Mode
use implementing_os_and_syst.Base.{
  ℕ, zero, suc, ◌+◌, ◌-◌, ◌*◌, ◌/◌, ◌%◌, ◌≤◌, ◌<◌, ◌≡◌, ap, ◌∙◌, Bool, not, ◌&&◌, ◌||◌, ltb, leb,
  ◌==◌, if◌then◌else◌, arith,
}
use implementing_os_and_syst.Machine.{word_mod, signed_lt}

-- GetFrameBufferSegment.
abbrev pub frame_buffer_segment : ℕ → ℕ
frame_buffer_segment gc =
    if gc / 4 % 4 == 1
    then 0xA0000
    else if gc / 4 % 4 == 2
    then 0xB0000
    else if gc / 4 % 4 == 3
    then 0xB8000
    else 0x00000

-- SupportsMode.
abbrev pub supports_mode : ℕ → ℕ → ℕ → Bool
supports_mode width height colordepth = (width == 320) && (height == 200) && (colordepth == 8)

-- GetColorIndex.
abbrev pub color_index : ℕ → ℕ → ℕ → ℕ
color_index r g b =
    if (r == 0x00) && (g == 0x00) && (b == 0x00)
    then 0x00
    else if (r == 0x00) && (g == 0x00) && (b == 0xA8)
    then 0x01
    else if (r == 0x00) && (g == 0xA8) && (b == 0x00)
    then 0x02
    else if (r == 0xA8) && (g == 0x00) && (b == 0x00)
    then 0x04
    else if (r == 0xFF) && (g == 0xFF) && (b == 0xFF)
    then 0x3F
    else 0x00

abbrev pub off_screen : ℕ → ℕ → Bool
off_screen x y = signed_lt x 0 || not (signed_lt x 320) || signed_lt y 0 || not (signed_lt y 200)

-- PutPixel with a colour index, for coordinates that are `int32_t` patterns.
unfoldable pub put_pixel : ℕ → ℕ → ℕ → ℕ → (ℕ → ℕ) → ℕ → ℕ
put_pixel segment x y color mem a =
    if off_screen x y then mem a else if segment + 320 * y + x == a then color else mem a

-- The inner loop of FillRectangle over `k` columns from `x` on.
pub fill_row : ℕ → ℕ → ℕ → ℕ → ℕ → (ℕ → ℕ) → ℕ → ℕ
fill_row segment zero x y color mem = mem
fill_row segment (suc k) x y color mem =
    fill_row segment k (x + 1) y color (put_pixel segment x y color mem)

-- The outer loop over `k` rows from `y` on.
pub fill_rows : ℕ → ℕ → ℕ → ℕ → ℕ → ℕ → (ℕ → ℕ) → ℕ → ℕ
fill_rows segment zero columns x y color mem = mem
fill_rows segment (suc k) columns x y color mem =
    fill_rows segment k columns x (y + 1) color (fill_row segment columns x y color mem)

-- How often a loop from `from` on runs: the comparison with the sum is one of `uint32_t`.
abbrev pub rounds : ℕ → ℕ → ℕ
rounds from size = (from + size) % word_mod - from

-- FillRectangle.
pub fill_rectangle : ℕ → ℕ → ℕ → ℕ → ℕ → ℕ → ℕ → ℕ → (ℕ → ℕ) → ℕ → ℕ
unfolding fill_rows
fill_rectangle gc x y w h r g b mem =
    fill_rows (frame_buffer_segment gc) (rounds y h) (rounds x w) x y (color_index r g b) mem

-- `v` is one of the `k` numbers from `from` on.
abbrev pub within : ℕ → ℕ → ℕ → Bool
within from k v = leb from v && ltb v (from + k)

put_pixel_lem :
    (segment x y color px py : ℕ) (mem : ℕ → ℕ)
    → px < 320
    → py < 200
    → x < word_mod
    → y < word_mod
    → put_pixel segment x y color mem (segment + 320 * py + px)
      ≡ (if (x == px) && (y == py) then color else mem (segment + 320 * py + px))
unfolding put_pixel
put_pixel_lem segment x y color px py mem p q a b = ground arith

fill_row_lem :
    (segment k x y color px py : ℕ) (mem : ℕ → ℕ)
    → px < 320
    → py < 200
    → x + k ≤ word_mod
    → y < word_mod
    → fill_row segment k x y color mem (segment + 320 * py + px)
      ≡ (if within x k px && (y == py) then color else mem (segment + 320 * py + px))
unfolding fill_row
fill_row_lem segment zero x y color px py mem p q a b = ground arith
fill_row_lem segment (suc k) x y color px py mem p q a b =
    fill_row_lem segment k (x + 1) y color px py (put_pixel segment x y color mem) p q (omega arith)
      b
    ∙ ground (arith, put_pixel_lem segment x y color px py mem p q (omega arith) b)

fill_rows_lem :
    (segment k columns x y color px py : ℕ) (mem : ℕ → ℕ)
    → px < 320
    → py < 200
    → x + columns ≤ word_mod
    → y + k ≤ word_mod
    → fill_rows segment k columns x y color mem (segment + 320 * py + px)
      ≡ (if within x columns px && within y k py then color else mem (segment + 320 * py + px))
unfolding fill_rows
fill_rows_lem segment zero columns x y color px py mem p q a b = ground arith
fill_rows_lem segment (suc k) columns x y color px py mem p q a b =
    fill_rows_lem segment k columns x (y + 1) color px py (fill_row segment columns x y color mem) p
      q a (omega arith)
    ∙ ground (arith, fill_row_lem segment columns x y color px py mem p q a (omega arith))

within-rounds :
    (from size v : ℕ)
    → within from (rounds from size) v ≡ (leb from v && ltb v ((from + size) % word_mod))
within-rounds from size v = ground arith

-- FillRectangle gives a pixel of the screen the colour exactly if it lies in the rectangle, and else
-- leaves it as it was. The far edges are sums of `uint32_t`, which wrap around where the rectangle begins
-- at a negative coordinate.
pub fill_rectangle_lem :
    (gc x y w h r g b px py : ℕ) (mem : ℕ → ℕ)
    → px < 320
    → py < 200
    → x < word_mod
    → y < word_mod
    → let i = frame_buffer_segment gc + 320 * py + px in
      fill_rectangle gc x y w h r g b mem i ≡ (
        if (leb x px && ltb px ((x + w) % word_mod)) && (leb y py && ltb py ((y + h) % word_mod))
        then color_index r g b
        else mem i)
unfolding fill_rectangle
fill_rectangle_lem gc x y w h r g b px py mem p q a c =
    fill_rows_lem (frame_buffer_segment gc) (rounds y h) (rounds x w) x y (color_index r g b) px py
      mem p q (omega arith) (omega arith)
    ∙ ap
        (λ (t : Bool).
          if t then color_index r g b else mem (frame_buffer_segment gc + 320 * py + px))
        (ap (λ (u : Bool). u && within y (rounds y h) py) (within-rounds x w px)
          ∙ ap (λ (u : Bool). (leb x px && ltb px ((x + w) % word_mod)) && u)
              (within-rounds y h py))

-- A rectangle that begins at a negative column and reaches into the screen is not drawn at all.
pub fill_rectangle_left :
    (gc x y w h r g b px py : ℕ) (mem : ℕ → ℕ)
    → px < 320
    → py < 200
    → x < word_mod
    → y < word_mod
    → word_mod ≤ x + w
    → w < word_mod
    → let i = frame_buffer_segment gc + 320 * py + px in
      fill_rectangle gc x y w h r g b mem i ≡ mem i
fill_rectangle_left gc x y w h r g b px py mem p q a c e f =
    fill_rectangle_lem gc x y w h r g b px py mem p q a c ∙ ground arith
