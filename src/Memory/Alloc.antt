-- ===== src/Memory/Alloc.antt =====
-- `kmalloc` of kernel/mm/memory.c.
use os.Prelude.{
  ℕ, zero, suc, Option, none, some, true, false, not, ◌||◌, if◌then◌else◌, ltb, leb, ◌==◌, add_size,
  sub_size,
}
use os.Memory.Heap.{
  Block, Cells, Heap, block_magic, header_size, min_payload, modify, modify?, is_null, align_up,
  fuel,
}

-- The loop: the first free block that is large enough. A damaged header ends it like the end of the
-- list.
unfoldable pub find_fit : ℕ → Cells → Option ℕ → ℕ → Option ℕ
find_fit zero c cur wanted = none
find_fit (suc f) c none wanted = none
find_fit (suc f) c (some a) wanted =
    let rest = find_fit f c (c a).next wanted in
    if not ((c a).magic == block_magic)
    then none
    else if not (c a).free || ltb (c a).size wanted
    then rest
    else some a

-- A block that is large enough for two is split: the rest becomes a free block of its own.
unfoldable pub split : Cells → ℕ → ℕ → Cells
split c a wanted =
    let r = add_size (add_size a header_size) wanted in
    let c1 = modify c r (λ b. record {
      magic = block_magic;
      size = sub_size (sub_size (c a).size wanted) header_size;
      previous = some a;
      next = (c a).next;
      free = true;
    }) in
    let c2 = modify? c1 (c a).next (λ b. record b { previous = some r }) in
    modify c2 a (λ b. record b { next = some r; size = wanted })

abbrev pub take_block : Block → Block
take_block b = record b { free = false }

-- The body of the loop for the block that it takes.
unfoldable pub occupy : Heap → ℕ → ℕ → Heap
occupy h a wanted =
    let c =
      if leb (add_size (add_size wanted header_size) min_payload) (h.cells a).size
      then split h.cells a wanted
      else h.cells in
    record h {
      cells = modify c a take_block;
      used = add_size h.used (c a).size;
      allocations = add_size h.allocations 1;
    }

-- `kmalloc` behind its first tests, with the size rounded up.
abbrev pub allocate : ℕ → Heap → Heap × Option ℕ
allocate wanted h = elim (find_fit (fuel h) h.cells h.first wanted) [
  | none ↦ (h, none)
  | some a ↦ (occupy h a wanted, some (add_size a header_size))
]

-- The result is the heap and the pointer that is returned.
unfoldable pub kmalloc : ℕ → Heap → Heap × Option ℕ
kmalloc size h =
    let wanted = align_up size in
    if size == 0 || is_null h.first
    then (h, none)
    else if wanted == 0
    then (h, none)
    else allocate wanted h
