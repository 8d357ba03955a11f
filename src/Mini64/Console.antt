-- ===== src/Mini64/Console.antt =====
-- The text screen of mini64/kernel.c: `putc` and `puts` without a framebuffer.
pub mod Page
use os.Prelude.{
  ℕ, zero, suc, ◌+◌, ◌-◌, ◌*◌, ◌%◌, List, [], ◌∷◌, Bool, true, false, if◌then◌else◌, ltb, leb, ◌==◌,
}
use os.Prelude.Array.{Array, put}

abbrev pub vga_cols : ℕ
vga_cols = 80

abbrev pub vga_rows : ℕ
vga_rows = 25

-- `VGA_BUF`, and the static variables. `attr` is 0x0F throughout.
pub record Screen : Type 0 where
  pub cells : Array
  pub row : ℕ
  pub col : ℕ

-- `((uint16_t)attr << 8) | c`
abbrev pub cell : ℕ → ℕ
cell c = 0x0f00 + c

-- `for (x = 0; x < VGA_COLS; x++)` of the scrolling, from `x` on, with the number left.
unfoldable pub move_row : ℕ → ℕ → ℕ → Array → Array
move_row zero x y a = a
move_row (suc n) x y a =
    move_row n (x + 1) y (put a ((y - 1) * vga_cols + x) (a (y * vga_cols + x)))

-- `for (y = 1; y < VGA_ROWS; y++)` of the scrolling, from `y` on, with the number left.
unfoldable pub move_rows : ℕ → ℕ → Array → Array
move_rows zero y a = a
move_rows (suc n) y a = move_rows n (y + 1) (move_row vga_cols 0 y a)

-- The last row from `x` on, with the number left.
unfoldable pub clear_row : ℕ → ℕ → Array → Array
clear_row zero x a = a
clear_row (suc n) x a = clear_row n (x + 1) (put a ((vga_rows - 1) * vga_cols + x) (cell 32))

abbrev pub scroll : Screen → Screen
scroll s =
    if s.row == vga_rows
    then record {
      cells = clear_row vga_cols 0 (move_rows (vga_rows - 1) 1 s.cells);
      row = vga_rows - 1;
      col = s.col;
    }
    else s

abbrev pub wrap : Screen → Screen
wrap s = if s.col == vga_cols then record s { col = 0; row = s.row + 1 } else s

abbrev pub draw : ℕ → Screen → Screen
draw c s =
    if c == 10
    then record s { col = 0; row = s.row + 1 }
    else record s { cells = put s.cells (s.row * vga_cols + s.col) (cell c); col = s.col + 1 }

unfoldable pub putc : ℕ → Screen → Screen
putc c s = scroll (wrap (draw c s))

unfoldable pub puts : List ℕ → Screen → Screen
puts [] s = s
puts (c ∷ cs) s = let rest = puts cs (putc c s) in if c == 0 then s else rest
