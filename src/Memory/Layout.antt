-- ===== src/Memory/Layout.antt =====
-- The block list of kernel/mm/memory.c as a list of blocks that lie one behind the other, and when the
-- headers in memory represent it.
pub mod Sums
pub mod Relink
use os.Prelude.{
  ℕ, zero, suc, ◌+◌, ◌-◌, ◌*◌, ◌%◌, ◌≤◌, ◌<◌, ◌≡◌, refl, sym, ap, ◌∙◌, List, [], ◌∷◌, ◌++◌, Option,
  none, some, Bool, true, false, ◌&&◌, if◌then◌else◌, length, arith,
}
use os.Memory.Heap.{Block, Cells, Heap, block_magic, header_size, heap_max_bytes}

-- A block of the layout: its payload's size, and whether it is free.
pub record Segment : Type 0 where
  pub size : ℕ
  pub free : Bool

-- The bytes that blocks take up, their headers included.
abbrev pub span : List Segment → ℕ
span [] = 0
span (s ∷ ss) = header_size + s.size + span ss

-- The header at `a` is that of the block `s`, with `p` for its predecessor.
pub record IsHeader (b : Block) (p : Option ℕ) (s : Segment) : Type 0 where
  pub magic : b.magic ≡ block_magic
  pub size : b.size ≡ s.size
  pub free : b.free ≡ s.free
  pub previous : b.previous ≡ p

-- A part of the list: `cur` points to its first block, which lies at `base` and has the predecessor
-- `p`; behind it come `q`, the last block, and `e`, the pointer that leaves the part.
abbrev pub Linked : Cells → Option ℕ → Option ℕ → ℕ → List Segment → Option ℕ → Option ℕ → Type 0
Linked c p cur base [] q e = (p ≡ q) × (cur ≡ e)
Linked c p cur base (s ∷ ss) q e =
    (cur ≡ some base)
    × IsHeader (c base) p s
    × Linked c (some base) (c base).next (base + header_size + s.size) ss q e

-- Headers outside of the part do not matter.
pub Linked-frame :
    (c c' : Cells) (p cur : Option ℕ) (base : ℕ) (ss : List Segment) (q e : Option ℕ)
    → ((k : ℕ) → base ≤ k → k < base + span ss → c' k ≡ c k)
    → Linked c p cur base ss q e
    → Linked c' p cur base ss q e
Linked-frame c c' p cur base [] q e same h = h
Linked-frame c c' p cur base (s ∷ ss) q e same h =
    let here : c' base ≡ c base = same base (omega arith) (omega arith) in
    (
      h.0,
      rw here h.1,
      rw here (
          Linked-frame c c' (some base) (c base).next (base + header_size + s.size) ss q e
            (λ k lo hi. same k (omega arith) (omega arith)) h.2),
    )

-- A part of two pieces.
pub Linked-append :
    (c : Cells) (p cur : Option ℕ) (base : ℕ) (xs ys : List Segment) (m n q e : Option ℕ)
    → Linked c p cur base xs m n
    → Linked c m n (base + span xs) ys q e
    → Linked c p cur base (xs ++ ys) q e
Linked-append c p cur base [] ys m n q e h k =
    let z : base + 0 ≡ base = omega arith in rw (h.0, h.1) (rw z at k)
Linked-append c p cur base (x ∷ xs) ys m n q e h k =
    let z : base + (header_size + x.size + span xs) ≡ base + header_size + x.size + span xs =
      omega arith in
    (
      h.0,
      h.1,
      Linked-append c (some base) (c base).next (base + header_size + x.size) xs ys m n q e h.2
          (rw z at k),
    )

-- The two pointers between the pieces.
pub Linked-split :
    (c : Cells) (p cur : Option ℕ) (base : ℕ) (xs ys : List Segment) (q e : Option ℕ)
    → Linked c p cur base (xs ++ ys) q e
    → (m : Option ℕ) × (n : Option ℕ) × Linked c p cur base xs m n
      × Linked c m n (base + span xs) ys q e
Linked-split c p cur base [] ys q e h =
    let z : base + 0 ≡ base = omega arith in (p, cur, (refl, refl), rw z h)
Linked-split c p cur base (x ∷ xs) ys q e h =
    let z : base + (header_size + x.size + span xs) ≡ base + header_size + x.size + span xs =
      omega arith in
    let (m, n, front, back) =
      Linked-split c (some base) (c base).next (base + header_size + x.size) xs ys q e h.2 in
    (m, n, (h.0, h.1, front), rw z back)

pub span-append : (xs ys : List Segment) → span (xs ++ ys) ≡ span xs + span ys
span-append [] ys = omega arith
span-append (x ∷ xs) ys = omega (arith, span-append xs ys)

pub length-le-span : (ss : List Segment) → length ss * header_size ≤ span ss
length-le-span [] = omega arith
length-le-span (s ∷ ss) = omega (arith, length-le-span ss)

-- Payload sizes are positive multiples of 16.
abbrev pub AllAligned : List Segment → Type 0
AllAligned [] = Unit {0}
AllAligned (s ∷ ss) = ((s.size % 16 ≡ 0) × (16 ≤ s.size)) × AllAligned ss

-- No free block lies behind a free block.
abbrev pub IsCoalesced : List Segment → Type 0
IsCoalesced [] = Unit {0}
IsCoalesced (s ∷ []) = Unit {0}
IsCoalesced (s ∷ t ∷ ss) = ((s.free && t.free) ≡ false) × IsCoalesced (t ∷ ss)

abbrev pub used_bytes : List Segment → ℕ
used_bytes [] = 0
used_bytes (s ∷ ss) = (if s.free then 0 else s.size) + used_bytes ss

abbrev pub used_blocks : List Segment → ℕ
used_blocks [] = 0
used_blocks (s ∷ ss) = (if s.free then 0 else 1) + used_blocks ss

abbrev pub free_total : List Segment → ℕ
free_total [] = 0
free_total (s ∷ ss) = (if s.free then s.size else 0) + free_total ss

-- The heap `h` consists of the blocks `ss`: they fill it, the list links them in both directions in
-- the order of their addresses, the counters agree with them, and no two neighbours are free.
pub record Represents (h : Heap) (ss : List Segment) : Type 0 where
  pub last : Option ℕ
  pub linked : Linked h.cells none h.first 0 ss last none
  pub fills : span ss ≡ h.heap_bytes
  pub small : h.heap_bytes ≤ heap_max_bytes
  pub aligned : AllAligned ss
  pub coalesced : IsCoalesced ss
  pub used_sum : h.used ≡ used_bytes ss
  pub used_count : h.allocations ≡ used_blocks ss
