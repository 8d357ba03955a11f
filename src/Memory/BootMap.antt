-- ===== src/Memory/BootMap.antt =====
-- The boot map of kernel/mm/memory.c as a list of tags, and its scan.
use os.Prelude.{
  ℕ, zero, suc, ◌+◌, ◌-◌, ◌*◌, ◌/◌, ◌^◌, ◌≤◌, ◌<◌, ◌≡◌, refl, sym, ◌∙◌, ◌++◌, List, [], ◌∷◌, true,
  false, ◌||◌, if◌then◌else◌, Bool-cases, inl, inr, ltb, leb, ◌==◌, length, arith, add32, sub32,
}
use os.Memory.Multiboot.{
  Bytes, read32, read64, add_entry, entries_from, step, entries_fuel, tags_from,
  multiboot_available_bytes,
}

pub record Entry : Type 0 where
  pub length : ℕ
  pub kind : ℕ

-- A memory map with the size of its entries, or a tag of another kind.
pub data Tag : Type 0 where
  memory_map : (entry_size : ℕ) (entries : List Entry) → Tag
  other : (kind size : ℕ) → Tag

abbrev pub entries_size : ℕ → List Entry → ℕ
entries_size s [] = 0
entries_size s (e ∷ es) = s + entries_size s es

abbrev pub tag_size : Tag → ℕ
tag_size (memory_map s es) = 16 + entries_size s es
tag_size (other kind size) = size

-- The memory has the entries at a position behind the tag's start.
abbrev pub HasEntries : Bytes → ℕ → ℕ → ℕ → List Entry → Type 0
HasEntries m tag s position [] = Unit {0}
HasEntries m tag s position (e ∷ es) =
    (read32 m (tag + position + 16) ≡ e.kind)
    × (read64 m (tag + position + 8) ≡ e.length)
    × HasEntries m tag s (position + s) es

abbrev pub HasTag : Bytes → ℕ → Tag → Type 0
HasTag m a (memory_map s es) =
    (read32 m a ≡ 6)
    × (read32 m (a + 4) ≡ 16 + entries_size s es)
    × (read32 m (a + 8) ≡ s)
    × (24 ≤ s)
    × (s ≤ entries_size s es)
    × HasEntries m a s 16 es
HasTag m a (other kind size) =
    (read32 m a ≡ kind)
    × (read32 m (a + 4) ≡ size)
    × ((kind == 0) ≡ false)
    × ((kind == 6) ≡ false)
    × (8 ≤ size)

-- The memory has the tags from an offset on, each at the next multiple of 8, and then an end tag.
abbrev pub HasTags : Bytes → ℕ → ℕ → ℕ → List Tag → Type 0
HasTags m base total offset [] = (offset + 8 ≤ total) × (read32 m (base + offset) ≡ 0)
HasTags m base total offset (t ∷ ts) =
    (offset + tag_size t ≤ total)
    × HasTag m (base + offset) t
    × HasTags m base total (offset + (tag_size t + 7) / 8 * 8) ts

-- The loop's sum over entries and tags.
abbrev pub add_entries : List Entry → ℕ → ℕ
add_entries [] sum = sum
add_entries (e ∷ es) sum = add_entries es (add_entry e.kind e.length sum)

abbrev pub add_tags : List Tag → ℕ → ℕ
add_tags [] sum = sum
add_tags (memory_map s es ∷ ts) sum = add_tags ts (add_entries es sum)
add_tags (other kind size ∷ ts) sum = add_tags ts sum

-- The lengths of the available entries, those of type 1, in the order of the tags.
abbrev pub available_of : List Entry → List ℕ
available_of [] = []
available_of (e ∷ es) = if e.kind == 1 then e.length ∷ available_of es else available_of es

abbrev pub available : List Tag → List ℕ
available [] = []
available (memory_map s es ∷ ts) = available_of es ++ available ts
available (other kind size ∷ ts) = available ts

-- A sum in 64 bits to which no length is added that would make it overflow.
abbrev pub sum_64 : List ℕ → ℕ → ℕ
sum_64 [] sum = sum
sum_64 (n ∷ ns) sum = if ltb (sum + n) (2 ^ 64) then sum_64 ns (sum + n) else sum_64 ns sum

add_entries_lem :
    (es : List Entry) (ns : List ℕ) (sum : ℕ)
    → sum < 2 ^ 64
    → (add_entries es sum < 2 ^ 64)
      × (sum_64 (available_of es ++ ns) sum ≡ sum_64 ns (add_entries es sum))
add_entries_lem [] ns sum small = (small, refl)
add_entries_lem (e ∷ es) ns sum small = elim (Bool-cases (e.kind == 1)) [
  | inl one ↦ elim (Bool-cases (ltb (sum + e.length) (2 ^ 64))) [
    | inl lt ↦
        let test : leb e.length (2 ^ 64 - 1 - sum) ≡ true = ground (arith, lt) in
        rw (one, test, lt) (add_entries_lem es ns (sum + e.length) (ground (arith, lt)))
    | inr ge ↦
        let test : leb e.length (2 ^ 64 - 1 - sum) ≡ false = ground (arith, ge, small) in
        rw (one, test, ge) (add_entries_lem es ns sum small)
  ]
  | inr none ↦ rw none (add_entries_lem es ns sum small)
]

add_tags_lem :
    (ts : List Tag) (sum : ℕ) → sum < 2 ^ 64 → add_tags ts sum ≡ sum_64 (available ts) sum
add_tags_lem [] sum small = refl
add_tags_lem (memory_map s es ∷ ts) sum small =
    let (below, same) = add_entries_lem es (available ts) sum small in
    add_tags_lem ts (add_entries es sum) below ∙ sym same
add_tags_lem (other kind size ∷ ts) sum small = add_tags_lem ts sum small

entries_size-le : (s : ℕ) (es : List Entry) → 24 ≤ s → 24 * length es ≤ entries_size s es
entries_size-le s [] h = omega arith
entries_size-le s (e ∷ es) h = omega (arith, entries_size-le s es h)

entries_from_lem :
    (f : ℕ) (m : Bytes) (tag size s position sum : ℕ) (es : List Entry)
    → length es < f
    → size ≡ position + entries_size s es
    → 24 ≤ s
    → s ≤ size
    → size < 2 ^ 32
    → HasEntries m tag s position es
    → entries_from f m tag size s position sum ≡ add_entries es sum
unfolding entries_from
entries_from_lem zero m tag size s position sum es lt e big le word h = absurd (omega arith)
entries_from_lem (suc f) m tag size s position sum [] lt e big le word h =
    let over : leb position (sub32 size s) ≡ false = ground arith in rw over
entries_from_lem (suc f) m tag size s position sum (x ∷ es) lt e big le word h =
    let more : leb position (sub32 size s) ≡ true = ground arith in
    let next : add32 position s ≡ position + s = omega arith in
    rw (more, h.0, h.1, next)
      (entries_from_lem f m tag size s (position + s) (add_entry x.kind x.length sum) es
        (omega arith) (omega arith) big le word h.2)

step_lem : (size : ℕ) → size + 7 < 2 ^ 32 → step size ≡ (size + 7) / 8 * 8
step_lem size h = ground arith

tags_from_lem :
    (f : ℕ) (m : Bytes) (base total offset sum : ℕ) (ts : List Tag)
    → total < f * 8 + offset
    → total ≤ 2 ^ 32 - 8
    → HasTags m base total offset ts
    → tags_from f m base total offset sum ≡ add_tags ts sum
unfolding tags_from
tags_from_lem zero m base total offset sum [] lt word h = absurd (omega (arith, h.0))
tags_from_lem zero m base total offset sum (memory_map s es ∷ ts) lt word h =
    absurd (omega (arith, h.0))
tags_from_lem zero m base total offset sum (other kind size ∷ ts) lt word h =
    absurd (omega (arith, h.0))
tags_from_lem (suc f) m base total offset sum [] lt word h =
    let inside : ltb total (offset + 8) ≡ false = ground (arith, h.0) in rw (inside, h.1)
tags_from_lem (suc f) m base total offset sum (memory_map s es ∷ ts) lt word
      (fits, (kind, size, each, big, one, entries), tail) =
    let inside : ltb total (offset + 8) ≡ false = ground arith in
    let well : (ltb (16 + entries_size s es) 8 || ltb (sub32 total offset) (16 + entries_size s es))
        ≡ false =
      ground arith in
    let map_size : leb 16 (16 + entries_size s es) ≡ true = ground arith in
    let entry : ltb s 24 ≡ false = ground arith in
    let steps = step_lem (16 + entries_size s es) (omega arith) in
    let next : add32 offset ((16 + entries_size s es + 7) / 8 * 8)
        ≡ offset + (16 + entries_size s es + 7) / 8 * 8 =
      omega arith in
    let sum' =
      entries_from_lem entries_fuel m (base + offset) (16 + entries_size s es) s 16 sum es
        (omega (arith, entries_size-le s es big)) refl big (omega arith) (omega arith) entries in
    rw (inside, kind, size, well, map_size, each, entry, steps, next, sum')
      (tags_from_lem f m base total (offset + (16 + entries_size s es + 7) / 8 * 8)
        (add_entries es sum) ts (omega arith) word tail)
tags_from_lem (suc f) m base total offset sum (other k size ∷ ts) lt word
      (fits, (kind, sized, some_tag, no_map, big), tail) =
    let inside : ltb total (offset + 8) ≡ false = ground arith in
    let well : (ltb size 8 || ltb (sub32 total offset) size) ≡ false = ground arith in
    let steps = step_lem size (omega arith) in
    let next : add32 offset ((size + 7) / 8 * 8) ≡ offset + (size + 7) / 8 * 8 = omega arith in
    rw (inside, kind, some_tag, sized, well, no_map, steps, next)
      (tags_from_lem f m base total (offset + (size + 7) / 8 * 8) sum ts (omega arith) word tail)

-- On boot information that is a list of tags, each memory map with at least one entry and entries of at
-- least 24 bytes, closed by an end tag and of at most 2^32 - 8 bytes, `multiboot_available_bytes` is the
-- sum of the lengths of the entries of type 1, in their order, without those with which the sum would not
-- stay below 2^64.
pub multiboot_available_bytes_lem :
    (m : Bytes) (base : ℕ) (ts : List Tag)
    → 0 < base
    → 16 ≤ read32 m base
    → read32 m base ≤ 2 ^ 32 - 8
    → HasTags m base (read32 m base) 8 ts
    → multiboot_available_bytes m base ≡ sum_64 (available ts) 0
unfolding multiboot_available_bytes
multiboot_available_bytes_lem m base ts pos least most h =
    let present : (base == 0) ≡ false = ground arith in
    let large : ltb (read32 m base) 16 ≡ false = ground arith in
    rw (present, large)
      (tags_from_lem (read32 m base / 8 + 1) m base (read32 m base) 8 0 ts (omega arith) most h
        ∙ add_tags_lem ts 0 (omega arith))
