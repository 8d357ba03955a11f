-- ===== src/Mini64/Console/Page.antt =====
-- The screen of mini64/kernel.c against a page without an end.
use os.Prelude.{
  ℕ, zero, suc, ◌+◌, ◌-◌, ◌*◌, ◌≤◌, ◌<◌, ◌≡◌, refl, ap, ◌∙◌, List, [], ◌∷◌, Bool, true, false, not,
  ◌&&◌, if◌then◌else◌, ltb, leb, ◌==◌, arith, inl, inr, Bool-cases,
}
use os.Prelude.Array.{Array, put}
use os.Mini64.Console.{Screen, cell, move_row, move_rows, clear_row, scroll, wrap, draw, putc, puts}

move_row_lem :
    (n x y : ℕ) (a : Array) (k : ℕ)
    → x + n ≤ 80
    → 1 ≤ y
    → move_row n x y a k
      ≡ (if leb ((y - 1) * 80 + x) k && ltb k ((y - 1) * 80 + x + n) then a (k + 80) else a k)
unfolding move_row
move_row_lem zero x y a k le one = ground arith
move_row_lem (suc n) x y a k le one =
    move_row_lem n (x + 1) y (put a ((y - 1) * 80 + x) (a (y * 80 + x))) k (omega arith) one
    ∙ elim (Bool-cases (k == (y - 1) * 80 + x)) [
      | inl e ↦ ground (arith, e, one, ap a {x = y * 80 + x} {y = k + 80} (ground (arith, e, one)))
      | inr e ↦ ground (arith, e, one)
    ]

move_rows_lem :
    (n y : ℕ) (a : Array) (k : ℕ)
    → 1 ≤ y
    → move_rows n y a k
      ≡ (if leb ((y - 1) * 80) k && ltb k ((y - 1 + n) * 80) then a (k + 80) else a k)
unfolding move_rows
move_rows_lem zero y a k one = ground arith
move_rows_lem (suc n) y a k one =
    let here = move_row_lem 80 0 y a k (omega arith) one in
    let next = move_row_lem 80 0 y a (k + 80) (omega arith) one in
    move_rows_lem n (y + 1) (move_row 80 0 y a) k (omega arith) ∙ ground (arith, here, next, one)

clear_row_lem :
    (n x : ℕ) (a : Array) (k : ℕ)
    → clear_row n x a k ≡ (if leb (1920 + x) k && ltb k (1920 + x + n) then cell 32 else a k)
unfolding clear_row
clear_row_lem zero x a k = ground arith
clear_row_lem (suc n) x a k = clear_row_lem n (x + 1) (put a (1920 + x) (cell 32)) k ∙ ground arith

-- A page: its lines, and where the next character goes.
pub record Page : Type 0 where
  pub line : ℕ → ℕ → ℕ
  pub row : ℕ
  pub col : ℕ

-- A character goes on the page; behind the last column the next line begins.
abbrev pub type_char : ℕ → Page → Page
type_char c p =
    let line : ℕ → ℕ → ℕ = λ y x. if (y == p.row) && (x == p.col) then cell c else p.line y x in
    if c == 10
    then record { line = p.line; row = p.row + 1; col = 0 }
    else if p.col + 1 == 80
    then record { line = line; row = p.row + 1; col = 0 }
    else record { line = line; row = p.row; col = p.col + 1 }

abbrev pub type_text : List ℕ → Page → Page
type_text [] p = p
type_text (c ∷ cs) p = type_text cs (type_char c p)

-- No character is a NUL.
abbrev pub all_text : List ℕ → Bool
all_text [] = true
all_text (c ∷ cs) = not (c == 0) && all_text cs

-- The screen shows 25 lines of the page, from line `top` on, and the lines below are blank.
pub record ShowsBelow (limit : ℕ) (s : Screen) (p : Page) : Type 0 where
  pub top : ℕ
  pub low : s.row < limit
  pub placed : p.row ≡ top + s.row
  pub aligned : p.col ≡ s.col
  pub narrow : s.col < 80
  pub shown : (y x : ℕ) → y < 25 → x < 80 → s.cells (y * 80 + x) ≡ p.line (top + y) x
  pub blank : (y x : ℕ) → top + 25 ≤ y → p.line y x ≡ cell 32

abbrev pub Shows : Screen → Page → Type 0
Shows = ShowsBelow 25

module _ (c : ℕ) (s : Screen) (p : Page) (h : Shows s p) where
  drawn_shown :
      (y x : ℕ)
      → y < 25
      → x < 80
      → put s.cells (s.row * 80 + s.col) (cell c) (y * 80 + x)
        ≡ (if (h.top + y == p.row) && (x == p.col) then cell c else p.line (h.top + y) x)
  drawn_shown y x lt lt' =
      let there = h.shown y x lt lt' in
      let placed = h.placed in
      let aligned = h.aligned in
      let narrow = h.narrow in ground (arith, there, placed, aligned, narrow)

  drawn_blank :
      (y x : ℕ)
      → h.top + 25 ≤ y
      → (if (y == p.row) && (x == p.col) then cell c else p.line y x) ≡ cell 32
  drawn_blank y x le =
      let b = h.blank y x le in
      let placed = h.placed in let low = h.low in ground (arith, b, placed, low)

  wrapped : ShowsBelow 26 (wrap (draw c s)) (type_char c p)
  wrapped =
      let low = h.low in
      let narrow = h.narrow in
      let placed = h.placed in
      let aligned = h.aligned in
      elim (Bool-cases (c == 10)) [
        | inl e ↦ rw e (record {
          top = h.top;
          low = omega (arith, low);
          placed = omega (arith, placed);
          aligned = refl;
          narrow = omega arith;
          shown = h.shown;
          blank = h.blank;
        })
        | inr e ↦ rw e (elim (Bool-cases (s.col + 1 == 80)) [
          | inl w ↦
              let w' : (p.col + 1 == 80) ≡ true = ground (arith, w, aligned) in
              rw (w, w')
                (record {
                  top = h.top;
                  low = omega (arith, low);
                  placed = omega (arith, placed);
                  aligned = refl;
                  narrow = omega arith;
                  shown = drawn_shown;
                  blank = drawn_blank;
                })
          | inr w ↦
              let w' : (p.col + 1 == 80) ≡ false = ground (arith, w, aligned) in
              rw (w, w')
                (record {
                  top = h.top;
                  low = omega (arith, low);
                  placed = placed;
                  aligned = omega (arith, aligned);
                  narrow = ground (arith, w, narrow);
                  shown = drawn_shown;
                  blank = drawn_blank;
                })
        ])
      ]

scrolled_cell :
    (s : Screen) (p : Page) (h : ShowsBelow 26 s p) (y x : ℕ)
    → y < 25
    → x < 80
    → clear_row 80 0 (move_rows 24 1 s.cells) (y * 80 + x) ≡ p.line (h.top + 1 + y) x
scrolled_cell s p h y x lt lt' =
    clear_row_lem 80 0 (move_rows 24 1 s.cells) (y * 80 + x) ∙ elim (Bool-cases (y == 24)) [
      | inl e ↦ let b = h.blank (h.top + 1 + y) x (ground (arith, e)) in ground (arith, e, b, lt')
      | inr e ↦
          let k : y * 80 + x + 80 ≡ (y + 1) * 80 + x = omega arith in
          let l : h.top + (y + 1) ≡ h.top + 1 + y = omega arith in
          let next =
            ap s.cells k ∙ h.shown (y + 1) x (ground (arith, e, lt)) lt' ∙ ap (λ n. p.line n x) l in
          ground (arith, e, lt, lt', move_rows_lem 24 1 s.cells (y * 80 + x) (omega arith), next)
    ]

scrolled : (s : Screen) (p : Page) → ShowsBelow 26 s p → Shows (scroll s) p
scrolled s p h =
    let low = h.low in
    let placed = h.placed in
    elim (Bool-cases (s.row == 25)) [
      | inl e ↦ rw e (record {
        top = h.top + 1;
        low = omega arith;
        placed = ground (arith, e, placed);
        aligned = h.aligned;
        narrow = h.narrow;
        shown = λ y x lt lt'. scrolled_cell s p h y x lt lt';
        blank = λ y x le. h.blank y x (omega (arith, le));
      })
      | inr e ↦ rw e (record {
        top = h.top;
        low = ground (arith, e, low);
        placed = placed;
        aligned = h.aligned;
        narrow = h.narrow;
        shown = h.shown;
        blank = h.blank;
      })
    ]

pub putc-Shows : (c : ℕ) (s : Screen) (p : Page) → Shows s p → Shows (putc c s) (type_char c p)
unfolding putc
putc-Shows c s p h = scrolled (wrap (draw c s)) (type_char c p) (wrapped c s p h)

-- A screen that shows the last 25 lines that are begun of a page without an end, with blank lines
-- below, shows those of the page on which a text without a NUL is typed behind the text that is there:
-- a line ends behind 80 characters or at a newline, and scrolling loses the top line only.
pub puts-Shows :
    (cs : List ℕ) (s : Screen) (p : Page)
    → all_text cs ≡ true
    → Shows s p
    → Shows (puts cs s) (type_text cs p)
unfolding puts
puts-Shows [] s p e h = h
puts-Shows (c ∷ cs) s p e h =
    let not_end : (c == 0) ≡ false = ground (arith, e) in
    rw not_end (puts-Shows cs (putc c s) (type_char c p) (ground (arith, e)) (putc-Shows c s p h))
