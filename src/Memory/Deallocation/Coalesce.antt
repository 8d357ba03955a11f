-- ===== src/Memory/Deallocation/Coalesce.antt =====
-- Facts about coalescing the layout of the heap of kernel/mm/memory.c.
use os.Prelude.{
  ◌+◌, ◌%◌, ◌≤◌, ◌≡◌, refl, sym, ◌∙◌, List, [], ◌∷◌, ◌++◌, Bool, true, ◌&&◌, arith, inl, inr,
  Bool-cases,
}
use os.Memory.Heap.{header_size}
use os.Memory.Layout.{Segment, span, AllAligned, IsCoalesced, used_bytes, used_blocks}
use os.Memory.Layout.Sums.{IsCoalesced-same}
use os.Memory.Deallocation.{join, glue, coalesce}

span-glue : (s : Segment) (ts : List Segment) → span (glue s ts) ≡ header_size + s.size + span ts
span-glue s [] = omega arith
span-glue s (t ∷ ts) = ground arith

pub span-coalesce : (ss : List Segment) → span (coalesce ss) ≡ span ss
span-coalesce [] = refl
span-coalesce (s ∷ ss) = omega (arith, span-glue s (coalesce ss), span-coalesce ss)

used_bytes-glue : (s : Segment) (ts : List Segment) → used_bytes (glue s ts) ≡ used_bytes (s ∷ ts)
used_bytes-glue s [] = refl
used_bytes-glue s (t ∷ ts) = ground arith

pub used_bytes-coalesce : (ss : List Segment) → used_bytes (coalesce ss) ≡ used_bytes ss
used_bytes-coalesce [] = refl
used_bytes-coalesce (s ∷ ss) =
    omega (arith, used_bytes-glue s (coalesce ss), used_bytes-coalesce ss)

used_blocks-glue :
    (s : Segment) (ts : List Segment) → used_blocks (glue s ts) ≡ used_blocks (s ∷ ts)
used_blocks-glue s [] = refl
used_blocks-glue s (t ∷ ts) = ground arith

pub used_blocks-coalesce : (ss : List Segment) → used_blocks (coalesce ss) ≡ used_blocks ss
used_blocks-coalesce [] = refl
used_blocks-coalesce (s ∷ ss) =
    omega (arith, used_blocks-glue s (coalesce ss), used_blocks-coalesce ss)

AllAligned-glue :
    (s : Segment) (ts : List Segment)
    → (s.size % 16 ≡ 0) × (16 ≤ s.size)
    → AllAligned ts
    → AllAligned (glue s ts)
AllAligned-glue s [] h k = (h, tt)
AllAligned-glue s (t ∷ ts) h k = elim (Bool-cases (s.free && t.free)) [
  | inl e ↦ rw e ((omega arith, omega arith), k.1)
  | inr e ↦ rw e (h, k)
]

pub AllAligned-coalesce : (ss : List Segment) → AllAligned ss → AllAligned (coalesce ss)
AllAligned-coalesce [] h = h
AllAligned-coalesce (s ∷ ss) h = AllAligned-glue s (coalesce ss) h.0 (AllAligned-coalesce ss h.1)

and_parts : (a b : Bool) → (a && b) ≡ true → (a ≡ true) × (b ≡ true)
and_parts a b h = ground arith

IsCoalesced-glue : (s : Segment) (ts : List Segment) → IsCoalesced ts → IsCoalesced (glue s ts)
IsCoalesced-glue s [] k = tt
IsCoalesced-glue s (t ∷ ts) k = elim (Bool-cases (s.free && t.free)) [
  | inl e ↦
      let b = and_parts s.free t.free e in rw e (IsCoalesced-same t (join s t) ts (b.1 ∙ sym b.0) k)
  | inr e ↦ rw e (e, k)
]

-- Whatever it was, a coalesced layout has no two free neighbours.
pub IsCoalesced-coalesce : (ss : List Segment) → IsCoalesced (coalesce ss)
IsCoalesced-coalesce [] = tt
IsCoalesced-coalesce (s ∷ ss) = IsCoalesced-glue s (coalesce ss) (IsCoalesced-coalesce ss)

-- A layout without free neighbours stays as it is.
pub coalesce_id : (ss : List Segment) → IsCoalesced ss → coalesce ss ≡ ss
coalesce_id [] h = refl
coalesce_id (s ∷ []) h = refl
coalesce_id (s ∷ t ∷ ss) h = rw (coalesce_id (t ∷ ss) h.1, h.0)

-- The blocks in front of a joined part stay as they are, if the part does not begin with a block that
-- joins their last one.
pub coalesce-append :
    (xs ys : List Segment) (z : Segment) (zs : List Segment)
    → coalesce ys ≡ z ∷ zs
    → IsCoalesced (xs ++ (z ∷ []))
    → coalesce (xs ++ ys) ≡ xs ++ (z ∷ zs)
coalesce-append [] ys z zs e h = e
coalesce-append (x ∷ []) ys z zs e h = rw (e, h.0)
coalesce-append (x ∷ x' ∷ xs) ys z zs e h = rw (coalesce-append (x' ∷ xs) ys z zs e h.1, h.0)

-- A part that is in front sees only whether the next block is free.
pub IsCoalesced-front :
    (xs : List Segment) (y z : Segment) (ys : List Segment)
    → y.free ≡ z.free
    → IsCoalesced (xs ++ (y ∷ ys))
    → IsCoalesced (xs ++ (z ∷ []))
IsCoalesced-front [] y z ys e h = tt
IsCoalesced-front (x ∷ []) y z ys e h = (ground arith, tt)
IsCoalesced-front (x ∷ x' ∷ xs) y z ys e h = (h.0, IsCoalesced-front (x' ∷ xs) y z ys e h.1)
