-- ===== src/Memory/Allocation.antt =====
-- `kmalloc` of kernel/mm/memory.c on the layout: first fit, and the split of the block it finds.
pub mod Search
pub mod Split
pub mod Correct
use os.Prelude.{
  ℕ, ◌+◌, ◌-◌, List, [], ◌∷◌, ◌++◌, Option, none, some, Bool, true, false, ◌&&◌, if◌then◌else◌, leb,
}
use os.Memory.Heap.{header_size, min_payload}
use os.Memory.Layout.{Segment}

-- A block of a layout, with those before and behind it.
pub record Cut : Type 0 where
  pub before : List Segment
  pub block : Segment
  pub behind : List Segment

abbrev pub behind_of : Segment → Option Cut → Option Cut
behind_of s none = none
behind_of s (some k) = some (record { before = s ∷ k.before; block = k.block; behind = k.behind })

-- The first free block of at least `wanted` bytes.
abbrev pub first_fit : ℕ → List Segment → Option Cut
first_fit wanted [] = none
first_fit wanted (s ∷ ss) =
    if s.free && leb wanted s.size
    then some (record { before = []; block = s; behind = ss })
    else behind_of s (first_fit wanted ss)

-- What a block becomes: itself, in use, or a block of the size wanted and a free rest.
abbrev pub placed : ℕ → Segment → List Segment
placed wanted s =
    if leb (wanted + header_size + min_payload) s.size
    then record { size = wanted; free = false }
      ∷ record { size = s.size - wanted - header_size; free = true }
      ∷ []
    else record { size = s.size; free = false } ∷ []

abbrev pub allocated : ℕ → Cut → List Segment
allocated wanted k = k.before ++ (placed wanted k.block ++ k.behind)
