-- ===== src/Memory/Deallocation.antt =====
-- `kfree` of kernel/mm/memory.c on the layout: the block becomes free and is joined with its free
-- neighbours.
pub mod Coalesce
pub mod Lookup
pub mod Absorb
pub mod Merge
pub mod Correct
use os.Prelude.{
  ℕ, ◌+◌, List, [], ◌∷◌, ◌++◌, Option, none, some, Bool, true, false, ◌&&◌, if◌then◌else◌, ◌==◌,
}
use os.Memory.Heap.{header_size}
use os.Memory.Layout.{Segment}
use os.Memory.Allocation.{Cut, behind_of}

-- Two free blocks become one: the header between them is payload now.
abbrev pub join : Segment → Segment → Segment
join s t = record { size = s.size + (header_size + t.size); free = s.free }

abbrev pub glue : Segment → List Segment → List Segment
glue s [] = s ∷ []
glue s (t ∷ ts) = if s.free && t.free then join s t ∷ ts else s ∷ t ∷ ts

-- Every run of free blocks becomes one block.
abbrev pub coalesce : List Segment → List Segment
coalesce [] = []
coalesce (s ∷ ss) = glue s (coalesce ss)

-- The block whose payload starts at `p`.
abbrev pub block_at : ℕ → ℕ → List Segment → Option Cut
block_at base p [] = none
block_at base p (s ∷ ss) =
    if (base + header_size) == p
    then some (record { before = []; block = s; behind = ss })
    else behind_of s (block_at (base + header_size + s.size) p ss)

abbrev pub freed : Cut → List Segment
freed k = coalesce (k.before ++ (record { size = k.block.size; free = true } ∷ k.behind))
