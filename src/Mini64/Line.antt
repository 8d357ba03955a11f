-- ===== src/Mini64/Line.antt =====
-- `readline` and `hist_add` of mini64/kernel.c: the state, and one function for each key. What the
-- function prints is the list of the characters that it hands to `putc`, here without the prompt.
pub mod Keys
pub mod Complete
pub mod Read
pub mod Text
pub mod Entered
pub mod Copies
pub mod Bounds
pub mod Within
pub mod Recall
use os.Prelude.{
  ℕ, zero, suc, ◌+◌, ◌-◌, List, [], ◌∷◌, ◌++◌, Option, none, some, Bool, true, false, not, ◌&&◌,
  ◌||◌, if◌then◌else◌, ltb, leb, ◌==◌, replicate,
}
use os.Prelude.Array.{Array, put, slice, copy_array}
use os.Prelude.CString.{str_eq}

abbrev pub hist_max : ℕ
hist_max = 8

abbrev pub line_max : ℕ
line_max = 128

-- `history` and `hist_count`; a row of `history` is an array of 128 characters.
pub record History : Type 0 where
  pub rows : ℕ → Array
  pub count : ℕ

-- `streq` on two texts that end within 128 characters.
abbrev pub same_text : Array → Array → Bool
same_text a b = str_eq (slice 0 line_max a) (slice 0 line_max b)

-- `history[i] = v` for a whole row.
abbrev pub put_row : (ℕ → Array) → ℕ → Array → ℕ → Array
put_row rows i v k = if k == i then v else rows k

-- `for (i = n; i > 0; i--)` with the copy of row `i - 1` to row `i`.
unfoldable pub shift_rows : ℕ → (ℕ → Array) → ℕ → Array
shift_rows zero rows = rows
shift_rows (suc n) rows =
    shift_rows n (put_row rows (suc n) (copy_array line_max 0 (rows n) (rows (suc n))))

-- `for (j = 0; j < 128 && line[j]; j++) row[j] = line[j];` from index `j` on, with the rounds left.
unfoldable pub copy_text : ℕ → ℕ → Array → Array → Array
copy_text zero j line row = row
copy_text (suc n) j line row =
    let rest = copy_text n (j + 1) line (put row j (line j)) in if line j == 0 then row else rest

unfoldable pub hist_add : Array → History → History
hist_add line h =
    let count = if ltb h.count hist_max then h.count + 1 else h.count in
    let rows = shift_rows (count - 1) h.rows in
    let newest = put (copy_text line_max 0 line (rows 0)) 127 0 in
    if line 0 == 0
    then h
    else if not (h.count == 0) && same_text (h.rows (h.count - 1)) line
    then h
    else record { rows = put_row rows 0 newest; count = count }

-- The variables of `readline`; `h` is -1 as `none`.
pub record Line : Type 0 where
  pub buf : Array
  pub pos : ℕ
  pub len : ℕ
  pub h : Option ℕ
  pub saved : Array
  pub out : List ℕ

-- `readline` before its loop.
abbrev pub fresh : Array → Array → Line
fresh buf saved = record {
  buf = put buf 0 0;
  pos = 0;
  len = 0;
  h = none;
  saved = put saved 0 0;
  out = [];
}

abbrev pub print : List ℕ → Line → Line
print cs s = record s { out = s.out ++ cs }

-- `n` times `putc('\b')`.
abbrev pub backs : ℕ → List ℕ
backs n = replicate n 8

-- The characters from index `i` up to `len`.
abbrev pub tail_from : ℕ → Line → List ℕ
tail_from i s = slice i (s.len - i) s.buf
