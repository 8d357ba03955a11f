-- ===== src/Mini64/Line/Read.antt =====
-- `readline` of mini64/kernel.c: the choice by the key, and the loop over the keys.
use os.Prelude.{ℕ, ◌+◌, List, [], ◌∷◌, Bool, true, false, ◌&&◌, if◌then◌else◌, ltb, leb, ◌==◌}
use os.Prelude.Array.{Array, put}
use os.Mini64.Line.{History, Line, hist_add, fresh, print}
use os.Mini64.Line.Keys.{
  backspace, delete_at, go_home, go_end, go_left, go_right, insert_key, older, newer,
}
use os.Mini64.Line.Complete.{complete}

-- A round of the loop for a key that does not end the line.
unfoldable pub edit : ℕ → History → ℕ → Line → Line
edit max hist c s =
    if c == 8
    then backspace s
    else if c == 0x7f
    then delete_at s
    else if c == 0x01
    then go_home s
    else if c == 0x02
    then go_end s
    else if c == 0x03
    then go_left s
    else if c == 0x04
    then go_right s
    else if c == 9
    then complete max s
    else if leb 32 c && ltb c 127 && ltb (s.len + 1) max
    then insert_key c s
    else if c == 0x1b
    then older hist s
    else if c == 0x1a
    then newer hist s
    else s

-- `buf[pos] = 0; putc('\n');`
abbrev pub finish : Line → Line
finish s = print (10 ∷ []) (record s { buf = put s.buf s.pos 0 })

-- The loop over the keys: the state at the end with the history, and whether the line has ended.
unfoldable pub read_keys : ℕ → History → List ℕ → Line → Line × History × Bool
read_keys max hist [] s = (s, hist, false)
read_keys max hist (c ∷ cs) s =
    let rest = read_keys max hist cs s in
    let go_on = read_keys max hist cs (edit max hist c s) in
    let done = finish s in
    if c == 0 then rest else if c == 10 then (done, hist_add done.buf hist, true) else go_on

unfoldable pub readline : ℕ → History → Array → Array → List ℕ → Line × History × Bool
readline max hist buf saved keys = read_keys max hist keys (fresh buf saved)
