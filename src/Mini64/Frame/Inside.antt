-- ===== src/Mini64/Frame/Inside.antt =====
-- Where the framebuffer console of mini64/kernel.c writes, and what it does below its last row.
use os.Prelude.{
  ℕ, zero, suc, ◌+◌, ◌-◌, ◌*◌, ◌/◌, ◌%◌, ◌^◌, ◌≤◌, ◌<◌, ◌≡◌, refl, ap, ◌∙◌, List, [], ◌∷◌, ◌&&◌,
  if◌then◌else◌, ltb, ◌==◌, arith, inl, inr, Bool-cases,
}
use native.Mathlib.Nat.{mul-le-mul_right}
use os.Prelude.Array.{Array, put}
use os.Mini64.Fat.{w32}
use os.Mini64.Frame.{
  Video, Canvas, copy_line, fill_line, copy_lines, fill_lines, fb_scroll, draw_pixels, draw_lines,
  draw_glyph, wrap_line, scroll_frame, fb_putc, fb_puts, fb_clear, foreground, background,
}

-- Nothing from `limit` on changes.
abbrev pub SameBeyond : ℕ → Array → Array → Type 0
SameBeyond limit b a = (k : ℕ) → limit ≤ k → b k ≡ a k

-- A video whose lines hold its pixels, with a row of text at least, and offsets that an `int` holds.
pub record IsVideo (v : Video) : Type 0 where
  pub wide : v.width * 4 ≤ v.pitch
  pub tall : v.rows * 16 ≤ v.height
  pub some_row : 0 < v.rows
  pub no_overflow : v.height * v.pitch < 2 ^ 31

abbrev pub limit_of : Video → ℕ
limit_of v = v.height * v.pitch

copy_line_same :
    (n x to from : ℕ) (a : Array) (limit : ℕ)
    → to + x + n ≤ limit
    → SameBeyond limit (copy_line n x to from a) a
unfolding copy_line
copy_line_same zero x to from a limit le k beyond = refl
copy_line_same (suc n) x to from a limit le k beyond =
    copy_line_same n (x + 1) to from (put a (to + x) (a (from + x))) limit (omega (arith, le)) k
      beyond
    ∙ ground (arith, le, beyond)

fill_line_same :
    (n x to color : ℕ) (a : Array) (limit : ℕ)
    → to + (x + n) * 4 ≤ limit
    → SameBeyond limit (fill_line n x to color a) a
unfolding fill_line
fill_line_same zero x to color a limit le k beyond = refl
fill_line_same (suc n) x to color a limit le k beyond =
    fill_line_same n (x + 1) to color (w32 a (to + x * 4) color) limit (omega (arith, le)) k beyond
    ∙ ground (arith, le, beyond)

module _ (v : Video) (h : IsVideo v) where
  -- A pixel line lies within the frame.
  line_inside : (y : ℕ) → y < v.height → y * v.pitch + v.width * 4 ≤ limit_of v
  line_inside y lt =
      let more : (y + 1) * v.pitch ≤ v.height * v.pitch = mul-le-mul_right v.pitch (omega arith) in
      let next : (y + 1) * v.pitch ≡ y * v.pitch + v.pitch = omega arith in
      let wide = h.wide in omega (arith, more, next, wide)

  copy_lines_same :
      (n y : ℕ) (a : Array) → y + n ≤ v.height → SameBeyond (limit_of v) (copy_lines n y v a) a
  unfolding copy_lines
  copy_lines_same zero y a le k beyond = refl
  copy_lines_same (suc n) y a le k beyond =
      let inside = line_inside y (omega (arith, le)) in
      copy_lines_same n (y + 1) _ (omega (arith, le)) k beyond
      ∙ copy_line_same (v.width * 4) 0 (y * v.pitch) ((y + 16) * v.pitch) a (limit_of v)
          (omega (arith, inside)) k beyond

  fill_lines_same :
      (n y color : ℕ) (a : Array)
      → y + n ≤ v.height
      → SameBeyond (limit_of v) (fill_lines n y color v a) a
  unfolding fill_lines
  fill_lines_same zero y color a le k beyond = refl
  fill_lines_same (suc n) y color a le k beyond =
      let inside = line_inside y (omega (arith, le)) in
      fill_lines_same n (y + 1) color _ (omega (arith, le)) k beyond
      ∙ fill_line_same v.width 0 (y * v.pitch) color a (limit_of v) (omega (arith, inside)) k beyond

  fb_scroll_same : (a : Array) → SameBeyond (limit_of v) (fb_scroll v a) a
  unfolding fb_scroll
  fb_scroll_same a k beyond =
      let tall = h.tall in
      let one = h.some_row in
      fill_lines_same 16 ((v.rows - 1) * 16) 0 _ (omega (arith, tall, one)) k beyond
      ∙ copy_lines_same ((v.rows - 1) * 16) 0 a (omega (arith, tall, one)) k beyond

  pixel_same :
      (px py color : ℕ) (a : Array)
      → SameBeyond
          (limit_of v)
          (if ltb px v.width && ltb py v.height then w32 a (py * v.pitch + px * 4) color else a)
          a
  pixel_same px py color a k beyond = elim (Bool-cases (ltb px v.width && ltb py v.height)) [
    | inl e ↦
        let inside = line_inside py (ground (arith, e)) in
        let left : px < v.width = ground (arith, e) in rw e (ground (arith, inside, left, beyond))
    | inr e ↦ rw e refl
  ]

  draw_pixels_same :
      (n gx bits bx py : ℕ) (a : Array)
      → SameBeyond (limit_of v) (draw_pixels n gx bits bx py v a) a
  unfolding draw_pixels
  draw_pixels_same zero gx bits bx py a k beyond = refl
  draw_pixels_same (suc n) gx bits bx py a k beyond =
      draw_pixels_same n (gx + 1) bits bx py _ k beyond
      ∙ pixel_same (bx + gx) py (if bits / 2 ^ (7 - gx) % 2 == 1 then foreground else background) a
          k beyond

  draw_lines_same :
      (n gy : ℕ) (font : Array) (c bx by : ℕ) (a : Array)
      → SameBeyond (limit_of v) (draw_lines n gy font c bx by v a) a
  unfolding draw_lines
  draw_lines_same zero gy font c bx by a k beyond = refl
  draw_lines_same (suc n) gy font c bx by a k beyond =
      draw_lines_same n (gy + 1) font c bx by _ k beyond
      ∙ draw_pixels_same 8 0 _ bx (by + gy) a k beyond

  wrapped_bytes : (s : Canvas) → (wrap_line v s).bytes ≡ s.bytes
  wrapped_bytes s = elim (Bool-cases (s.col == v.cols)) [ inl e ↦ rw e refl | inr e ↦ rw e refl ]

  scrolled_same : (s : Canvas) → SameBeyond (limit_of v) (scroll_frame v s).bytes s.bytes
  scrolled_same s k beyond = elim (Bool-cases (s.row == v.rows)) [
    | inl e ↦ rw e (fb_scroll_same s.bytes k beyond)
    | inr e ↦ rw e refl
  ]

  fb_putc_same :
      (font : Array) (c : ℕ) (s : Canvas)
      → SameBeyond (limit_of v) (fb_putc font v c s).bytes s.bytes
  unfolding fb_putc
  fb_putc_same font c s k beyond = elim (Bool-cases (c == 10)) [
    | inl e ↦ rw e refl
    | inr e ↦ rw e (
        scrolled_same (wrap_line v (draw_glyph font v c s)) k beyond
        ∙ ap (λ a. a k) (wrapped_bytes (draw_glyph font v c s))
        ∙ draw_lines_same 16 0 font _ (s.col * 8) (s.row * 16) s.bytes k beyond)
  ]

  fb_puts_same :
      (font : Array) (cs : List ℕ) (s : Canvas)
      → SameBeyond (limit_of v) (fb_puts font v cs s).bytes s.bytes
  unfolding fb_puts
  fb_puts_same font [] s k beyond = refl
  fb_puts_same font (c ∷ cs) s k beyond = elim (Bool-cases (c == 0)) [
    | inl e ↦ rw e refl
    | inr e ↦
        rw e (fb_puts_same font cs (fb_putc font v c s) k beyond ∙ fb_putc_same font c s k beyond)
  ]

  -- With a frame whose lines hold its pixels, with at least one row of text, all of them within its height, and
  -- offsets below 2^31, neither the output of a text nor fb_clear writes anything behind the frame's last line,
  -- wherever the cursor stands and whatever the font is.
  pub fb_puts_inside :
      (font : Array) (cs : List ℕ) (s : Canvas) (k : ℕ)
      → limit_of v ≤ k
      → (fb_puts font v cs s).bytes k ≡ s.bytes k × (fb_clear v s).bytes k ≡ s.bytes k
  unfolding fb_clear
  fb_puts_inside font cs s k beyond = (
    fb_puts_same font cs s k beyond,
    fill_lines_same v.height 0 background s.bytes (omega arith) k beyond,
  )
