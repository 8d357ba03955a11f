-- ===== src/Mini64/Frame/Below.antt =====
-- What the framebuffer console of mini64/kernel.c does when its cursor has passed the last row.
use os.Prelude.{
  ℕ, zero, suc, ◌+◌, ◌*◌, ◌≤◌, ◌<◌, ◌≡◌, refl, ◌∙◌, List, [], ◌∷◌, false, ◌&&◌, ltb, ◌==◌, arith,
  inl, inr, Bool-cases,
}
use os.Prelude.Array.{Array}
use os.Mini64.Frame.{Video, Canvas, shown_char, draw_pixels, draw_lines, fb_putc, fb_puts}

module _ (v : Video) where
  -- Pixels below the frame are not drawn.
  no_pixels :
      (n gx bits bx py : ℕ) (a : Array) → v.height ≤ py → draw_pixels n gx bits bx py v a ≡ a
  unfolding draw_pixels
  no_pixels zero gx bits bx py a le = refl
  no_pixels (suc n) gx bits bx py a le =
      let below : (ltb (bx + gx) v.width && ltb py v.height) ≡ false = ground (arith, le) in
      rw below (no_pixels n (gx + 1) bits bx py a le)

  no_lines :
      (n gy : ℕ) (font : Array) (c bx by : ℕ) (a : Array)
      → v.height ≤ by
      → draw_lines n gy font c bx by v a ≡ a
  unfolding draw_lines
  no_lines zero gy font c bx by a le = refl
  no_lines (suc n) gy font c bx by a le =
      no_lines n (gy + 1) font c bx by _ le ∙ no_pixels 8 0 _ bx (by + gy) a (omega (arith, le))

  -- The cursor stays below, and nothing is drawn.
  below_stays :
      (font : Array) (c : ℕ) (s : Canvas)
      → v.height < v.rows * 16 + 16
      → v.rows < s.row
      → (fb_putc font v c s).bytes ≡ s.bytes × v.rows < (fb_putc font v c s).row
  unfolding fb_putc
  below_stays font c s short below =
      let nothing =
        no_lines 16 0 font (shown_char c) (s.col * 8) (s.row * 16) s.bytes
          (omega (arith, short, below)) in
      let same : (s.row == v.rows) ≡ false = ground (arith, below) in
      let next : (s.row + 1 == v.rows) ≡ false = ground (arith, below) in
      elim (Bool-cases (c == 10)) [
        | inl e ↦ rw e (refl, omega (arith, below))
        | inr e ↦ rw e (elim (Bool-cases (s.col + 1 == v.cols)) [
          | inl w ↦ rw (w, next) (nothing, omega (arith, below))
          | inr w ↦ rw (w, same) (nothing, below)
        ])
      ]

  -- When the cursor stands below the row behind the last and the frame is less than one row higher than its rows,
  -- the output of a text changes no pixel: nothing shows, and nothing scrolls.
  pub fb_puts_below :
      (font : Array) (cs : List ℕ) (s : Canvas)
      → v.height < v.rows * 16 + 16
      → v.rows < s.row
      → (fb_puts font v cs s).bytes ≡ s.bytes
  unfolding fb_puts
  fb_puts_below font [] s short below = refl
  fb_puts_below font (c ∷ cs) s short below =
      let (nothing, below') = below_stays font c s short below in
      elim (Bool-cases (c == 0)) [
        | inl e ↦ rw e refl
        | inr e ↦ rw e (fb_puts_below font cs (fb_putc font v c s) short below' ∙ nothing)
      ]
