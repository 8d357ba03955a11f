-- ===== src/Memory/Multiboot.antt =====
-- The scan of the boot map in kernel/mm/memory.c. `m` is the memory, by address; `base` is the address
-- of the boot information. The loops take fuel: a tag moves the outer one by at least 8 bytes, and an
-- entry the inner one by at least 24.
use os.Prelude.{
  ℕ, zero, suc, ◌+◌, ◌-◌, ◌*◌, ◌/◌, ◌%◌, ◌^◌, not, ◌&&◌, ◌||◌, if◌then◌else◌, ltb, leb, ◌==◌, add32,
  sub32,
}

abbrev pub Bytes : Type 0
Bytes = ℕ → ℕ

-- `*(const uint32_t *)a`
abbrev pub read32 : Bytes → ℕ → ℕ
read32 m a =
    m a % 256 + m (a + 1) % 256 * 2 ^ 8 + m (a + 2) % 256 * 2 ^ 16 + m (a + 3) % 256 * 2 ^ 24

abbrev pub read64 : Bytes → ℕ → ℕ
read64 m a = read32 m a + read32 m (a + 4) * 2 ^ 32

-- `entry->type == 1 && UINT64_MAX - available >= entry->length`, and the addition.
abbrev pub add_entry : ℕ → ℕ → ℕ → ℕ
add_entry kind length available =
    if (kind == 1) && leb length (2 ^ 64 - 1 - available) then available + length else available

-- The loop over the entries of the map at `tag`.
unfoldable pub entries_from : ℕ → Bytes → ℕ → ℕ → ℕ → ℕ → ℕ → ℕ
entries_from zero m tag size entry_size position available = available
entries_from (suc f) m tag size entry_size position available =
    let entry = tag + position in
    let rest =
      entries_from f m tag size entry_size (add32 position entry_size)
        (add_entry (read32 m (entry + 16)) (read64 m (entry + 8)) available) in
    if leb position (sub32 size entry_size) then rest else available

-- `(tag->size + 7u) & ~7u`
abbrev pub step : ℕ → ℕ
step size = add32 size 7 / 8 * 8

abbrev pub entries_fuel : ℕ
entries_fuel = 2 ^ 32

-- The loop over the tags.
unfoldable pub tags_from : ℕ → Bytes → ℕ → ℕ → ℕ → ℕ → ℕ
tags_from zero m base total offset available = available
tags_from (suc f) m base total offset available =
    let tag = base + offset in
    let size = read32 m (tag + 4) in
    let entry_size = read32 m (tag + 8) in
    let next = add32 offset (step size) in
    let with_map =
      tags_from f m base total next
        (entries_from entries_fuel m tag size entry_size 16 available) in
    let without = tags_from f m base total next available in
    if ltb total (offset + 8)
    then available
    else if read32 m tag == 0
    then available
    else if ltb size 8 || ltb (sub32 total offset) size
    then available
    else if not ((read32 m tag == 6) && leb 16 size)
    then without
    else if ltb entry_size 24
    then available
    else with_map

unfoldable pub multiboot_available_bytes : Bytes → ℕ → ℕ
multiboot_available_bytes m base =
    let total = read32 m base in
    if base == 0 then 0 else if ltb total 16 then 0 else tags_from (total / 8 + 1) m base total 8 0

-- The loop that looks for the tag of the basic memory size.
unfoldable pub basic_from : ℕ → Bytes → ℕ → ℕ → ℕ → ℕ
basic_from zero m base total offset = 0
basic_from (suc f) m base total offset =
    let tag = base + offset in
    let size = read32 m (tag + 4) in
    let rest = basic_from f m base total (add32 offset (step size)) in
    if ltb total (offset + 8)
    then 0
    else if read32 m tag == 0
    then 0
    else if ltb size 8 || ltb (sub32 total offset) size
    then 0
    else if (read32 m tag == 4) && leb 16 size
    then (read32 m (base + offset + 12) + 1024) * 1024
    else rest

unfoldable pub multiboot_basic_bytes : Bytes → ℕ → ℕ
multiboot_basic_bytes m base =
    let total = read32 m base in if base == 0 then 0 else basic_from (total / 8 + 1) m base total 8

-- What `memory_init` makes of the two.
unfoldable pub boot_bytes : Bytes → ℕ → ℕ
boot_bytes m base =
    let available = multiboot_available_bytes m base in
    if available == 0 then multiboot_basic_bytes m base else available
