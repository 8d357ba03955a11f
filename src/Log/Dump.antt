-- ===== src/Log/Dump.antt =====
-- `log_dump` of kernel/drivers/display/log.c: the calls of the display that print the log.
use os.Prelude.{
  ℕ, zero, suc, ◌+◌, ◌/◌, ◌%◌, List, [], ◌∷◌, ◌++◌, none, some, Bool, if◌then◌else◌, ltb, leb, ◌==◌,
  get_or,
}
use os.Prelude.Int.{ℤ, pos, negsuc}
use os.Log.{Log, Message, log_read}

-- A call of the display: `display_color`, `display_number`, `display_putc`, `display_puts`.
pub data Output : Type 0 where
  color : ℕ → Output
  number : ℕ → Output
  putc : ℕ → Output
  puts : List ℕ → Output

abbrev pub level_names : List (List ℕ)
level_names =
    (b'D' ∷ b'E' ∷ b'B' ∷ b'U' ∷ b'G' ∷ [])
    ∷ (b'I' ∷ b'N' ∷ b'F' ∷ b'O' ∷ 32 ∷ [])
    ∷ (b'W' ∷ b'A' ∷ b'R' ∷ b'N' ∷ 32 ∷ [])
    ∷ (b'E' ∷ b'R' ∷ b'R' ∷ b'O' ∷ b'R' ∷ [])
    ∷ []

-- `lv >= 0 && lv <= 3 ? lv : 1`
abbrev pub shown_level : ℤ → ℕ
shown_level (pos n) = if leb n 3 then n else 1
shown_level (negsuc n) = 1

abbrev pub level_color : ℕ → ℕ
level_color l = if leb 2 l then 0x0c else if l == 1 then 0x07 else 0x08

-- `if (test) display_putc('0');`
abbrev pub zero_if : Bool → List Output
zero_if test = if test then putc b'0' ∷ [] else []

unfoldable pub dump_message : Message → List Output
dump_message m =
    let sec = m.timestamp / 1000000000 in
    let ms = m.timestamp % 1000000000 / 1000000 in
    let l = shown_level m.level in
    (color 0x07 ∷ number sec ∷ putc b'.' ∷ [])
    ++ zero_if (ltb ms 100)
    ++ zero_if (ltb ms 10)
    ++ (number ms
        ∷ putc 32
        ∷ putc b'['
        ∷ color (level_color l)
        ∷ puts (get_or level_names l [])
        ∷ color 0x07
        ∷ puts (b']' ∷ 32 ∷ [])
        ∷ puts m.subsystem
        ∷ puts (b':' ∷ 32 ∷ [])
        ∷ puts m.text
        ∷ putc 10
        ∷ [])

-- The rounds from index `i` on, `n` of them.
unfoldable pub dump_from : Log → ℕ → ℕ → List Output
dump_from s zero i = []
dump_from s (suc n) i =
    (elim (log_read s i) [ none ↦ [] | some m ↦ dump_message m ]) ++ dump_from s n (i + 1)

unfoldable pub log_dump : Log → List Output
log_dump s = dump_from s s.count 0
