-- ===== src/Mini64/Fat/Entries.antt =====
-- The root directory in mini64/kernel.c: names, the search, the deletion, the listing, and the file of
-- the boot mode.
use os.Prelude.{
  ℕ, zero, suc, ◌+◌, ◌-◌, ◌*◌, ◌/◌, ◌%◌, ◌^◌, List, [], ◌∷◌, ◌++◌, Option, none, some, Bool, true,
  false, not, ◌&&◌, ◌||◌, if◌then◌else◌, ltb, leb, ◌==◌, length, replicate,
}
use os.Prelude.Array.{Array, put, slice}
use os.Prelude.CString.{codes, c_string}
use os.Mini64.Print.{pnum}
use os.Mini64.Disk.{
  Drive, Step, pure, fail, attempt, statics, print, ◌>>=◌, ◌>>◌, disk_read, disk_write, disk_flush,
}
use os.Mini64.Fat.{r16, r32, cluster_lba, fat_get}

-- `c >= 'a' && c <= 'z' ? c - 32 : c`
abbrev pub upper : ℕ → ℕ
upper c = if leb 97 c && leb c 122 then c - 32 else c

-- `while (*n && *n != '.' && *n != '/' && i < 8)`, with the room left: the characters, and what is left.
unfoldable pub name_part : ℕ → List ℕ → List ℕ × List ℕ
name_part zero n = ([], n)
name_part (suc k) [] = ([], [])
name_part (suc k) (c ∷ n) =
    let (cs, rest) = name_part k n in
    if (c == 0) || (c == 46) || (c == 47) then ([], c ∷ n) else (upper c ∷ cs, rest)

-- `while (*n && *n != '.') n++; if (*n == '.') n++;`: what is left behind a dot, none without one.
unfoldable pub behind_dot : List ℕ → Option (List ℕ)
behind_dot [] = none
behind_dot (c ∷ n) =
    let rest = behind_dot n in if c == 0 then none else if c == 46 then some n else rest

-- `while (*n && j < 11)`, with the room left.
unfoldable pub extension_part : ℕ → List ℕ → List ℕ
extension_part zero n = []
extension_part (suc k) [] = []
extension_part (suc k) (c ∷ n) =
    let rest = extension_part k n in if c == 0 then [] else upper c ∷ rest

abbrev pub padded : ℕ → List ℕ → List ℕ
padded n cs = cs ++ replicate (n - length cs) 32

abbrev pub extension : Option (List ℕ) → List ℕ
extension none = []
extension (some n) = extension_part 3 n

-- The 11 bytes of a name in the directory.
unfoldable pub name83 : List ℕ → List ℕ
name83 n = let (cs, rest) = name_part 8 n in padded 8 cs ++ padded 3 (extension (behind_dot rest))

abbrev pub same_bytes : List ℕ → List ℕ → Bool
same_bytes [] [] = true
same_bytes (x ∷ xs) (y ∷ ys) = (x == y) && same_bytes xs ys
same_bytes _ _ = false

-- Slot `i` of the directory is in use.
abbrev pub is_used : Array → ℕ → Bool
is_used root i = not (root (i * 32) == 0) && not (root (i * 32) == 0xe5)

-- The first slot from `i` on that is in use and has the name, with the number of slots left.
unfoldable pub slot_named : ℕ → ℕ → Array → List ℕ → Option ℕ
slot_named zero i root key = none
slot_named (suc n) i root key =
    let rest = slot_named n (i + 1) root key in
    if is_used root i && same_bytes (slice (i * 32) 11 root) key then some i else rest

-- The first slot from `i` on that is not in use.
unfoldable pub free_slot : ℕ → ℕ → Array → Option ℕ
free_slot zero i root = none
free_slot (suc n) i root =
    let rest = free_slot n (i + 1) root in if is_used root i then rest else some i

-- `r16(e, 26) | (r16(e, 20) << 16)`
abbrev pub first_cluster : Array → ℕ → ℕ
first_cluster root slot = r16 root (slot * 32 + 26) + r16 root (slot * 32 + 20) * 2 ^ 16

-- Bytes up to the first blank.
abbrev pub up_to_blank : List ℕ → List ℕ
up_to_blank [] = []
up_to_blank (c ∷ cs) = if c == 32 then [] else c ∷ up_to_blank cs

abbrev pub entry_name : Array → ℕ → List ℕ
entry_name root o =
    up_to_blank (slice o 8 root)
    ++ (if root (o + 8) == 32 then [] else 46 ∷ up_to_blank (slice (o + 8) 3 root))

-- Bit 4 of the attributes marks a directory, bit 3 a label.
abbrev pub entry_line : Array → ℕ → List ℕ
entry_line root o =
    let directory = root (o + 11) / 2 ^ 4 % 2 == 1 in
    codes "  "
    ++ (if directory then codes "[DIR] " else codes "[FIL] ")
    ++ c_string (entry_name root o)
    ++ codes " "
    ++ (if directory then [] else pnum (r32 root (o + 28)) ++ codes " bytes")
    ++ (10 ∷ [])

-- The lines of the slots from `i` on, with the number that is left.
unfoldable entry_lines : ℕ → ℕ → Array → List ℕ
entry_lines zero i root = []
entry_lines (suc n) i root =
    let rest = entry_lines n (i + 1) root in
    if is_used root i && not (root (i * 32 + 11) / 2 ^ 3 % 2 == 1)
    then entry_line root (i * 32) ++ rest
    else rest

-- `disk_read(..., buf + pos)` on a read that gives `b`.
abbrev pub put_sector : ℕ → Array → Array → Array
put_sector pos b buf k = if leb pos k && ltb k (pos + 512) then b (k - pos) else buf k

abbrev pub mode_prefix : List ℕ
mode_prefix = codes "set os64_bootmode="

-- `while (buf[i] && buf[i] != '\r' && buf[i] != '\n' && out + 1 < max) buf[out++] = buf[i++];
-- buf[out] = 0;`, with the rounds left.
unfoldable pub move_mode : ℕ → ℕ → ℕ → ℕ → Array → Array
move_mode zero max i out buf = put buf out 0
move_mode (suc n) max i out buf =
    let rest = move_mode n max (i + 1) (out + 1) (put buf out (buf i)) in
    if (buf i == 0) || (buf i == 13) || (buf i == 10) || leb max (out + 1)
    then put buf out 0
    else rest

abbrev pub without_prefix : ℕ → Array → Array
without_prefix max buf =
    if same_bytes (slice 0 (length mode_prefix) buf) mode_prefix
    then move_mode max max (length mode_prefix) 0 buf
    else buf

module _ (d : Drive) where
  unfoldable pub find_entry : List ℕ → Step d.State (Array × ℕ)
  find_entry name = do
    v ← statics
    root ← disk_read d (cluster_lba v v.root_cluster)
    elim (slot_named 16 0 root (name83 name)) [ none ↦ fail | some slot ↦ pure (root, slot) ]

  unfoldable delete_root_file : List ℕ → Step d.State (Unit {0})
  delete_root_file name = do
    found ← find_entry name
    let (root, slot) = found
    v ← statics
    disk_write d (cluster_lba v v.root_cluster) (put root (slot * 32) 0xe5)
    disk_flush d

  unfoldable clear_panic_flag : Step d.State (Unit {0})
  clear_panic_flag = delete_root_file (codes "PANIC.FLG")

  unfoldable list_dir : Step d.State (Unit {0})
  list_dir = do
    v ← statics
    b ← attempt (disk_read d (cluster_lba v v.root_cluster))
    print (elim b [
      | none ↦ codes "  Cannot read root.\n"
      | some root ↦ elim (entry_lines 16 0 root) [ [] ↦ codes "  (empty)\n" | c ∷ cs ↦ c ∷ cs ]
    ])

  -- The loop over the clusters of the file from byte `pos` on, with the rounds left.
  unfoldable read_clusters : ℕ → ℕ → ℕ → ℕ → Array → Step d.State (Array × ℕ)
  read_clusters zero cluster pos size buf = pure (buf, pos)
  read_clusters (suc n) cluster pos size buf = do
    v ← statics
    b ← disk_read d (cluster_lba v cluster)
    let buf' = put_sector pos b buf
    let stop = pure (buf', pos + 512)
    let go_on = do
      next ← fat_get d cluster
      let rest = read_clusters n next (pos + 512) size buf'
      if leb 0x0FFFFFF8 next then stop else rest
    if ltb (pos + 512) size then go_on else stop

  -- `max` is not 0. A file of `size` bytes needs at most `size / 512 + 1` rounds.
  unfoldable read_bootmode : Array → ℕ → Step d.State Array
  read_bootmode buf max = do
    found ← find_entry (codes "BOOTMODE.CFG")
    let (root, slot) = found
    let stored = r32 root (slot * 32 + 28)
    let size = if ltb (max - 1) stored then max - 1 else stored
    read ←
        read_clusters (if size == 0 then 0 else size / 512 + 1) (first_cluster root slot) 0 size buf
    let (buf', pos) = read
    pure (without_prefix max (put buf' pos 0))
