-- ===== src/Mini64/Frame.antt =====
-- The framebuffer console of mini64/kernel.c: `fb_init`, `fb_scroll`, `fb_putc` and `fb_clear`. The font,
-- kernel/drivers/display/font8x16.h, is a parameter: the theorems hold for any.
pub mod Inside
pub mod Below
use os.Prelude.{
  ℕ, zero, suc, ◌+◌, ◌-◌, ◌*◌, ◌/◌, ◌%◌, ◌^◌, List, [], ◌∷◌, Option, none, some, Bool, true, false,
  not, ◌&&◌, ◌||◌, if◌then◌else◌, ltb, leb, ◌==◌, add32,
}
use os.Prelude.Array.{Array, put}
use os.Memory.Multiboot.{Bytes, read32, read64, step}
use os.Mini64.Fat.{w32}

-- `fb` and what describes it.
pub record Video : Type 0 where
  pub base : ℕ
  pub pitch : ℕ
  pub width : ℕ
  pub height : ℕ
  pub cols : ℕ
  pub rows : ℕ

abbrev pub at_most : ℕ → ℕ → ℕ
at_most a b = if ltb b a then b else a

-- The video that the tag describes.
abbrev pub video_at : Bytes → ℕ → Video
video_at m tag = record {
  base = read64 m (tag + 8);
  pitch = read32 m (tag + 16);
  width = read32 m (tag + 20);
  height = read32 m (tag + 24);
  cols = at_most (read32 m (tag + 20) / 8) 80;
  rows = at_most (read32 m (tag + 24) / 16) 30;
}

abbrev pub is_usable : Bytes → ℕ → Bool
is_usable m tag =
    (m (tag + 29) % 256 == 1)
    && (m (tag + 28) % 256 == 32)
    && ltb (read64 m (tag + 8)) (2 ^ 32)
    && leb 640 (read32 m (tag + 20))
    && leb 400 (read32 m (tag + 24))

-- The loop over the tags from `off` on. A tag moves it by at least 8 bytes, unless a 32-bit sum wraps
-- around; none when the rounds do not suffice.
unfoldable videos_from : ℕ → Bytes → ℕ → ℕ → ℕ → Option Video → Option (Option Video)
videos_from zero m base total off video = none
videos_from (suc f) m base total off video =
    let tag = base + off in
    let size = read32 m (tag + 4) in
    let found =
      if (read32 m tag == 8) && leb 38 size && is_usable m tag
      then some (video_at m tag)
      else video in
    let rest = videos_from f m base total (add32 off (step size)) found in
    if ltb total (add32 off 8) then some video else if ltb size 8 then some video else rest

unfoldable fb_init : Bytes → ℕ → Option (Option Video)
fb_init m base =
    let found = videos_from (read32 m base / 8 + 1) m base (read32 m base) 8 none in
    if base == 0 then some none else found

-- The bytes behind `fb`, and the cursor.
pub record Canvas : Type 0 where
  pub bytes : Array
  pub row : ℕ
  pub col : ℕ

-- `for (x = 0; x < fb_w * 4; x++)` of a line that moves, from `x` on, with the number left.
unfoldable pub copy_line : ℕ → ℕ → ℕ → ℕ → Array → Array
copy_line zero x to from a = a
copy_line (suc n) x to from a = copy_line n (x + 1) to from (put a (to + x) (a (from + x)))

-- `for (x = 0; x < fb_w * 4; x += 4)` of a line that is cleared.
unfoldable pub fill_line : ℕ → ℕ → ℕ → ℕ → Array → Array
fill_line zero x to color a = a
fill_line (suc n) x to color a = fill_line n (x + 1) to color (w32 a (to + x * 4) color)

-- The pixel lines from `y` on, with the number left.
unfoldable pub copy_lines : ℕ → ℕ → Video → Array → Array
copy_lines zero y v a = a
copy_lines (suc n) y v a =
    copy_lines n (y + 1) v (copy_line (v.width * 4) 0 (y * v.pitch) ((y + 16) * v.pitch) a)

unfoldable pub fill_lines : ℕ → ℕ → ℕ → Video → Array → Array
fill_lines zero y color v a = a
fill_lines (suc n) y color v a =
    fill_lines n (y + 1) color v (fill_line v.width 0 (y * v.pitch) color a)

unfoldable pub fb_scroll : Video → Array → Array
fb_scroll v a = fill_lines 16 ((v.rows - 1) * 16) 0 v (copy_lines ((v.rows - 1) * 16) 0 v a)

abbrev pub foreground : ℕ
foreground = 0x00c0c0c0

abbrev pub background : ℕ
background = 0x00303030

-- The pixels of a line of a glyph, from `gx` on, with the number left.
unfoldable pub draw_pixels : ℕ → ℕ → ℕ → ℕ → ℕ → Video → Array → Array
draw_pixels zero gx bits bx py v a = a
draw_pixels (suc n) gx bits bx py v a =
    let px = bx + gx in
    let color = if bits / 2 ^ (7 - gx) % 2 == 1 then foreground else background in
    draw_pixels n (gx + 1) bits bx py v
      (if ltb px v.width && ltb py v.height then w32 a (py * v.pitch + px * 4) color else a)

-- The lines of a glyph, from `gy` on, with the number left.
unfoldable pub draw_lines : ℕ → ℕ → Array → ℕ → ℕ → ℕ → Video → Array → Array
draw_lines zero gy font c bx by v a = a
draw_lines (suc n) gy font c bx by v a =
    draw_lines n (gy + 1) font c bx by v
      (draw_pixels 8 0 (font (c * 16 + gy) % 256) bx (by + gy) v a)

-- Control characters and those above 127 show as a question mark.
abbrev pub shown_char : ℕ → ℕ
shown_char c = if ltb c 32 || ltb 127 c then 63 else c

abbrev pub draw_glyph : Array → Video → ℕ → Canvas → Canvas
draw_glyph font v c s = record s {
  bytes = draw_lines 16 0 font (shown_char c) (s.col * 8) (s.row * 16) v s.bytes;
  col = s.col + 1;
}

abbrev pub wrap_line : Video → Canvas → Canvas
wrap_line v s = if s.col == v.cols then record s { col = 0; row = s.row + 1 } else s

abbrev pub scroll_frame : Video → Canvas → Canvas
scroll_frame v s =
    if s.row == v.rows then record s { bytes = fb_scroll v s.bytes; row = v.rows - 1 } else s

unfoldable pub fb_putc : Array → Video → ℕ → Canvas → Canvas
fb_putc font v c s =
    let next = record s { col = 0; row = s.row + 1 } in
    let drawn = scroll_frame v (wrap_line v (draw_glyph font v c s)) in
    if c == 10 then next else drawn

unfoldable pub fb_puts : Array → Video → List ℕ → Canvas → Canvas
fb_puts font v [] s = s
fb_puts font v (c ∷ cs) s =
    let rest = fb_puts font v cs (fb_putc font v c s) in if c == 0 then s else rest

unfoldable pub fb_clear : Video → Canvas → Canvas
fb_clear v s = record { bytes = fill_lines v.height 0 background v s.bytes; row = 0; col = 0 }
