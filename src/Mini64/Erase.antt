-- ===== src/Mini64/Erase.antt =====
-- `erase_sectors` of mini64/kernel.c, the comparison that ignores case, and the commands that show sectors.
pub mod Erased
use os.Prelude.{
  ℕ, zero, suc, ◌+◌, ◌-◌, ◌*◌, ◌/◌, ◌%◌, ◌^◌, List, [], ◌∷◌, ◌++◌, Option, none, some, Bool, true,
  false, not, ◌&&◌, ◌||◌, if◌then◌else◌, ltb, leb, ◌==◌, length, get_or,
}
use os.Prelude.Array.{Array, slice}
use os.Prelude.CString.{codes, str_eq}
use os.Mini64.Print.{pnum, phex, parse_u32, hex_digit}
use os.Mini64.Disk.{
  Drive, Volume, Step, pure, fail, attempt, statics, assign, require, print, ◌>>=◌, ◌>>◌, disk_read,
  disk_write, disk_flush, disk_identify,
}
use os.Mini64.Fat.{r32}

-- `if (c >= 'A' && c <= 'Z') c = c + 32;`
abbrev pub lower : ℕ → ℕ
lower c = if leb 65 c && leb c 90 then c + 32 else c

-- The texts are without their NUL.
unfoldable pub streq_ci : List ℕ → List ℕ → Bool
streq_ci [] [] = true
streq_ci (x ∷ a) (y ∷ b) = let rest = streq_ci a b in if lower x == lower y then rest else false
streq_ci _ _ = false

-- The text that starts here up to a blank, and what is left behind that blank.
abbrev pub word : List ℕ → List ℕ × List ℕ
word [] = ([], [])
word (c ∷ cs) = if c == 32 then ([], cs) else (c ∷ (word cs).0, (word cs).1)

abbrev pub skip_blanks : List ℕ → List ℕ
skip_blanks [] = []
skip_blanks (c ∷ cs) = if c == 32 then skip_blanks cs else c ∷ cs

-- At most `n` words.
unfoldable pub words : ℕ → List ℕ → List (List ℕ)
words zero args = []
words (suc n) args =
    let (w, rest) = word (skip_blanks args) in
    let ws = words n rest in elim (skip_blanks args) [ [] ↦ [] | c ∷ cs ↦ w ∷ ws ]

-- What fills the sectors: `pattern_kind` with its value.
pub data Pattern : Type 0 where
  zeros : Pattern
  byte_pattern : ℕ → Pattern
  text_pattern : List ℕ → Pattern

-- The variables of the function; a number is none until it is given.
pub record Options : Type 0 where
  pub lba : Option ℕ
  pub sectors : Option ℕ
  pub replace : Bool
  pub no_confirm : Bool
  pub pattern : Pattern

abbrev pub no_options : Options
no_options = record {
  lba = none;
  sectors = none;
  replace = false;
  no_confirm = false;
  pattern = zeros;
}

-- A message and `return 0`, or a value.
pub data Parsed (A : Type 0) : Type 0 where
  refused : List ℕ → Parsed A
  accepted : A → Parsed A

abbrev pub is_zeros : Pattern → Bool
is_zeros zeros = true
is_zeros _ = false

-- Two hexadecimal digits, with or without `0x`, and nothing behind.
abbrev pub two_digits : List ℕ → Option ℕ
two_digits (a ∷ b ∷ []) = elim (hex_digit a) [
  | none ↦ none
  | some x ↦ elim (hex_digit b) [ none ↦ none | some y ↦ some (x * 16 + y) ]
]
two_digits _ = none

abbrev pub without_0x : List ℕ → List ℕ
without_0x [] = []
without_0x (a ∷ []) = a ∷ []
without_0x (a ∷ b ∷ cs) = if (a == 48) && ((b == 120) || (b == 88)) then cs else a ∷ b ∷ cs

abbrev pub choose_either : List ℕ
choose_either = codes "  erase: choose either -h or -s, not both.\n"

-- `-h` with its value.
abbrev pub take_byte_option : List ℕ → Options → Parsed Options
take_byte_option v o = elim (two_digits (without_0x v)) [
  | none ↦ refused (codes "  erase: -h expects exactly one byte (00-FF).\n")
  | some b ↦
      if is_zeros o.pattern
      then accepted (record o { pattern = byte_pattern b })
      else refused choose_either
]

-- `-s` with its value; no word is empty.
abbrev pub take_text_option : List ℕ → Options → Parsed Options
take_text_option v o =
    if is_zeros o.pattern
    then accepted (record o { pattern = text_pattern v })
    else refused choose_either

-- A word that is no known option: its place decides.
abbrev pub take_operand : List ℕ → Options → Parsed Options
take_operand t o =
    if get_or t 0 0 == 45 then refused (codes "  erase: unknown option.\n") else elim o.lba [
      | none ↦ elim (parse_u32 t) [
        | none ↦ refused []
        | some n ↦ accepted (record o { lba = some n })
      ]
      | some x ↦ elim o.sectors [
        | none ↦ elim (parse_u32 t) [
          | none ↦ refused []
          | some n ↦ accepted (record o { sectors = some n })
        ]
        | some y ↦ refused (codes "  erase: too many operands.\n")
      ]
    ]

abbrev pub and_parse : Parsed Options → (Options → Parsed Options) → Parsed Options
and_parse (refused message) f = refused message
and_parse (accepted o) f = f o

-- The loop over the words.
unfoldable parse_options : List (List ℕ) → Options → Parsed Options
parse_options [] o = accepted o
parse_options (t ∷ []) o =
    if str_eq t (codes "-r")
    then accepted (record o { replace = true })
    else if str_eq t (codes "-no")
    then accepted (record o { no_confirm = true })
    else take_operand t o
parse_options (t ∷ v ∷ ts) o =
    let rest = parse_options (v ∷ ts) in
    let behind = parse_options ts in
    if str_eq t (codes "-r")
    then rest (record o { replace = true })
    else if str_eq t (codes "-no")
    then rest (record o { no_confirm = true })
    else if str_eq t (codes "-h")
    then and_parse (take_byte_option v o) behind
    else if str_eq t (codes "-s")
    then and_parse (take_text_option v o) behind
    else and_parse (take_operand t o) rest

-- What is erased.
pub record Range : Type 0 where
  pub lba : ℕ
  pub sectors : ℕ
  pub no_confirm : Bool
  pub pattern : Pattern

abbrev pub usage : List ℕ
usage =
    codes "  Usage: erase LBA [COUNT] [-no]\n"
    ++ codes "         erase -r LBA [COUNT] (-h BYTE|-s STRING) [-no]\n"

abbrev pub to_range : Options → Parsed Range
to_range o = elim o.lba [
  | none ↦ refused usage
  | some lba ↦
      let sectors : ℕ = elim o.sectors [ none ↦ 1 | some n ↦ n ] in
      if (sectors == 0)
        || (not o.replace && not (is_zeros o.pattern))
        || (o.replace && is_zeros o.pattern)
      then refused usage
      else accepted
          (record { lba = lba; sectors = sectors; no_confirm = o.no_confirm; pattern = o.pattern })
]

abbrev pub parsed_range : Parsed Options → Parsed Range
parsed_range (refused message) = refused message
parsed_range (accepted o) = to_range o

-- `block[i]`; of a text at most 64 characters count.
abbrev pub block_of : Pattern → Array
block_of zeros i = 0
block_of (byte_pattern b) i = b
block_of (text_pattern t) i = get_or t (i % (if ltb (length t) 64 then length t else 64)) 0

module _ (d : Drive) where
  -- The sectors from `lba` on, with the number left.
  unfoldable pub write_blocks : ℕ → ℕ → Array → Step d.State (Unit {0})
  write_blocks zero lba block = pure tt
  write_blocks (suc n) lba block = do
    ok ← attempt (disk_write d (lba % 2 ^ 32) block)
    elim ok [ none ↦ (do print (codes "  erase: ATA write failed.\n"); fail) | some x ↦ pure tt ]
    write_blocks n (lba + 1) block

  -- `ask` is false with `-no`; the answer is what the user types.
  abbrev pub confirm : Bool → List ℕ → Step d.State (Unit {0})
  confirm false answer = pure tt
  confirm true answer = do
    print (codes "  WARNING: this permanently overwrites disk sectors.\n  Type erase to continue: ")
    print (if streq_ci answer (codes "erase") then [] else codes "  erase: cancelled.\n")
    require (streq_ci answer (codes "erase"))

  abbrev pub within_disk : Range → Step d.State (Unit {0})
  within_disk r = do
    found ← attempt (disk_identify d)
    let fits : Bool = elim found [
      | none ↦ false
      | some x ↦ ltb r.lba x.1 && leb r.sectors (x.1 - r.lba)
    ]
    print (if fits then [] else codes "  erase: range is outside the primary ATA disk.\n")
    require fits

  -- The writes, behind all questions.
  unfoldable pub overwrite : Range → Step d.State (Unit {0})
  overwrite r = do
    write_blocks r.sectors r.lba (block_of r.pattern)
    ok ← attempt (disk_flush d)
    elim ok [ none ↦ (do print (codes "  erase: ATA flush failed.\n"); fail) | some x ↦ pure tt ]
    assign (λ v. record v { fat_mounted = false })
    print (codes "  erase: overwrite complete; sectors synchronized.\n")

  unfoldable pub erase_range : Range → List ℕ → Step d.State (Unit {0})
  erase_range r answer = do within_disk r; confirm (not r.no_confirm) answer; overwrite r

  unfoldable erase_sectors : List ℕ → List ℕ → Step d.State (Unit {0})
  erase_sectors args answer = elim (parsed_range (parse_options (words 9 args) no_options)) [
    | refused message ↦ (do print message; fail)
    | accepted r ↦ erase_range r answer
  ]

  -- The lines of the partitions from `i` on, with the number left.
  abbrev pub partition_lines : ℕ → ℕ → Array → List ℕ
  partition_lines zero i b = []
  partition_lines (suc n) i b =
      let e = 446 + i * 16 in
      let line =
        codes "  "
        ++ pnum (i + 1)
        ++ codes "   0x"
        ++ phex (b (e + 4))
        ++ codes " "
        ++ pnum (r32 b (e + 8))
        ++ codes " "
        ++ pnum (r32 b (e + 12))
        ++ (10 ∷ []) in
      (if b (e + 4) == 0 then [] else line) ++ partition_lines n (i + 1) b

  unfoldable show_partitions : Step d.State (Unit {0})
  show_partitions = do
    sector ← attempt (disk_read d 0)
    print (elim sector [
      | none ↦ codes "  partitions: cannot read MBR.\n"
      | some b ↦ codes "  IDX TYPE START-LBA SECTORS\n" ++ partition_lines 4 0 b
    ])

  abbrev pub pstore_text : Array → List ℕ
  pstore_text b =
      let n = r32 b 4 in
      if not (r32 b 0 == 0x52545350)
      then codes "  pstore: no persistent panic record.\n"
      else if ltb 496 n
      then codes "  pstore: invalid record length.\n"
      else codes "  Persistent panic record:\n  "
        ++ slice 16 n b
        ++ (if (n == 0) || not (b (15 + n) == 10) then 10 ∷ [] else [])

  unfoldable show_pstore : Step d.State (Unit {0})
  show_pstore = do
    sector ← attempt (disk_read d 2039)
    print (elim sector [ none ↦ codes "  pstore: read failed.\n" | some b ↦ pstore_text b ])
