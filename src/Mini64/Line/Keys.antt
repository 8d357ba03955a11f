-- ===== src/Mini64/Line/Keys.antt =====
-- The keys of `readline` in mini64/kernel.c, without the completion.
use os.Prelude.{ℕ, zero, suc, ◌+◌, ◌-◌, List, [], ◌∷◌, ◌++◌, none, some, if◌then◌else◌, ltb, ◌==◌}
use os.Prelude.Array.{Array, put, slice, shift_down, shift_up, copy_array}
use os.Mini64.Line.{History, Line, line_max, copy_text, print, backs, tail_from}

-- The character in front of the cursor goes.
unfoldable pub backspace : Line → Line
backspace s =
    let pos = s.pos - 1 in
    let len = s.len - 1 in
    let t = record s {
      buf = put (shift_down (s.len - pos) pos s.buf) len 0;
      pos = pos;
      len = len;
    } in
    if s.pos == 0 then s else print (8 ∷ tail_from pos t ++ (32 ∷ backs (len - pos))) t

-- The character at the cursor goes.
unfoldable pub delete_at : Line → Line
delete_at s =
    let len = s.len - 1 in
    let t = record s { buf = put (shift_down (s.len - s.pos) s.pos s.buf) len 0; len = len } in
    if ltb s.pos s.len then print (tail_from s.pos t ++ (32 ∷ backs (len + 1 - s.pos))) t else s

unfoldable pub go_home : Line → Line
go_home s = print (backs s.pos) (record s { pos = 0 })

unfoldable pub go_end : Line → Line
go_end s = if ltb s.pos s.len then print (tail_from s.pos s) (record s { pos = s.len }) else s

unfoldable pub go_left : Line → Line
go_left s = if s.pos == 0 then s else print (8 ∷ []) (record s { pos = s.pos - 1 })

unfoldable pub go_right : Line → Line
go_right s = if ltb s.pos s.len then print (s.buf s.pos ∷ []) (record s { pos = s.pos + 1 }) else s

-- A printable character goes in at the cursor.
unfoldable pub insert_key : ℕ → Line → Line
insert_key c s =
    let len = s.len + 1 in
    let t = record s {
      buf = put (put (shift_up (s.len - s.pos) s.pos s.buf) s.pos c) len 0;
      pos = s.pos + 1;
      len = len;
    } in
    print (c ∷ tail_from (s.pos + 1) t ++ backs (len - (s.pos + 1))) t

-- `for (k = 0; row[k]; k++) buf[k] = row[k];`: the length of the text, with the rounds left.
unfoldable pub text_length : ℕ → ℕ → Array → ℕ
text_length zero k row = k
text_length (suc n) k row = let rest = text_length n (k + 1) row in if row k == 0 then k else rest

-- Three characters that wipe out the one in front.
abbrev pub wipe : ℕ → List ℕ
wipe zero = []
wipe (suc n) = 8 ∷ 32 ∷ 8 ∷ wipe n

-- The line becomes the text `row`, with the cursor behind it.
unfoldable pub show_text : Array → Line → Line
show_text row s =
    let len = text_length line_max 0 row in
    let buf = put (copy_text line_max 0 row s.buf) len 0 in
    print (wipe s.len ++ slice 0 len buf) (record s { buf = buf; pos = len; len = len })

unfoldable pub older : History → Line → Line
older hist s =
    let kept : Line = elim s.h [
      | none ↦ record s { saved = put (copy_array s.len 0 s.buf s.saved) s.len 0 }
      | some i ↦ s
    ] in
    let next : ℕ = elim s.h [ none ↦ 0 | some i ↦ i + 1 ] in
    if ltb next hist.count then show_text (hist.rows next) (record kept { h = some next }) else kept

unfoldable pub newer : History → Line → Line
newer hist s = elim s.h [
  | none ↦ s
  | some i ↦
      if i == 0
      then show_text s.saved (record s { h = none })
      else show_text (hist.rows (i - 1)) (record s { h = some (i - 1) })
]
