-- ===== src/Memory/Free.antt =====
-- `kfree` of kernel/mm/memory.c.
use os.Prelude.{
  ℕ, zero, suc, ◌-◌, Option, none, some, Bool, true, not, ◌&&◌, ◌||◌, if◌then◌else◌, ltb, leb, ◌==◌,
  add_size, sub_size,
}
use os.Memory.Heap.{Block, Cells, Heap, block_magic, header_size, modify, modify?, fuel}

-- `while (block && (void *)(block + 1) != pointer)`: the block whose payload starts at `p`. A damaged
-- header on the way ends the search like the end of the list.
unfoldable pub find_block : ℕ → Cells → Option ℕ → ℕ → Option ℕ
find_block zero c cur p = none
find_block (suc f) c none p = none
find_block (suc f) c (some a) p =
    let rest = find_block f c (c a).next p in
    if add_size a header_size == p
    then some a
    else if not ((c a).magic == block_magic)
    then none
    else rest

abbrev pub is_free : Cells → ℕ → Bool
is_free c a = ((c a).magic == block_magic) && (c a).free

-- `a` takes in the block `n` behind it.
unfoldable pub absorb : Cells → ℕ → ℕ → Cells
absorb c a n =
    let after = (c n).next in
    modify?
      (modify c a
        (λ b. record b { size = add_size b.size (add_size header_size (c n).size); next = after }))
      after (λ b. record b { previous = some a })

unfoldable pub merge_next : Cells → ℕ → Cells
merge_next c a = elim (c a).next [ none ↦ c | some n ↦ if is_free c n then absorb c a n else c ]

unfoldable pub merge_previous : Cells → ℕ → Cells
merge_previous c a = elim (c a).previous [
  | none ↦ c
  | some p ↦ if is_free c p then absorb c p a else c
]

abbrev pub free_block : Block → Block
free_block b = record b { free = true }

-- The end of `kfree`, for a block that is in use.
unfoldable pub release : Heap → ℕ → Heap
release h a = record h {
  cells = merge_previous (merge_next (modify h.cells a free_block) a) a;
  used = sub_size h.used (h.cells a).size;
  allocations = if h.allocations == 0 then h.allocations else h.allocations - 1;
}

unfoldable pub kfree : Option ℕ → Heap → Heap
kfree none h = h
kfree (some p) h =
    if ltb p header_size || leb h.heap_bytes p
    then h
    else elim (find_block (fuel h) h.cells h.first p) [
      | none ↦ h
      | some a ↦
          if not ((h.cells a).magic == block_magic) || (h.cells a).free then h else release h a
    ]
