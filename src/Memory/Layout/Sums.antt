-- ===== src/Memory/Layout/Sums.antt =====
-- Sums and predicates over a layout of the heap of kernel/mm/memory.c, across `++`.
use os.Prelude.{◌+◌, ◌*◌, ◌%◌, ◌≤◌, ◌≡◌, refl, List, [], ◌∷◌, ◌++◌, false, length, arith}
use os.Memory.Layout.{Segment, span, AllAligned, IsCoalesced, used_bytes, used_blocks, free_total}

pub used_bytes-append :
    (xs ys : List Segment) → used_bytes (xs ++ ys) ≡ used_bytes xs + used_bytes ys
used_bytes-append [] ys = omega arith
used_bytes-append (x ∷ xs) ys = omega (arith, used_bytes-append xs ys)

pub used_blocks-append :
    (xs ys : List Segment) → used_blocks (xs ++ ys) ≡ used_blocks xs + used_blocks ys
used_blocks-append [] ys = omega arith
used_blocks-append (x ∷ xs) ys = omega (arith, used_blocks-append xs ys)

-- Every byte of the layout is in a header, in a used payload or in a free one.
pub span-sums : (ss : List Segment) → span ss ≡ 48 * length ss + used_bytes ss + free_total ss
span-sums [] = omega arith
span-sums (s ∷ ss) = ground (arith, span-sums ss)

pub used_bytes-le : (ss : List Segment) → used_bytes ss ≤ span ss
used_bytes-le ss = omega (arith, span-sums ss)

pub used_blocks-le : (ss : List Segment) → used_blocks ss ≤ span ss
used_blocks-le [] = omega arith
used_blocks-le (s ∷ ss) = ground (arith, used_blocks-le ss)

pub AllAligned-append :
    (xs ys : List Segment) → AllAligned xs → AllAligned ys → AllAligned (xs ++ ys)
AllAligned-append [] ys h k = k
AllAligned-append (x ∷ xs) ys h k = (h.0, AllAligned-append xs ys h.1 k)

pub AllAligned-parts :
    (xs ys : List Segment) → AllAligned (xs ++ ys) → AllAligned xs × AllAligned ys
AllAligned-parts [] ys h = (tt, h)
AllAligned-parts (x ∷ xs) ys h = let rest = AllAligned-parts xs ys h.1 in ((h.0, rest.0), rest.1)

pub span-aligned : (ss : List Segment) → AllAligned ss → span ss % 16 ≡ 0
span-aligned [] h = refl
span-aligned (s ∷ ss) h = omega (arith, span-aligned ss h.1)

-- Being coalesced looks at a block only through its being free.
pub IsCoalesced-tail : (s : Segment) (ss : List Segment) → IsCoalesced (s ∷ ss) → IsCoalesced ss
IsCoalesced-tail s [] h = tt
IsCoalesced-tail s (t ∷ ss) h = h.1

pub IsCoalesced-behind : (xs ys : List Segment) → IsCoalesced (xs ++ ys) → IsCoalesced ys
IsCoalesced-behind [] ys h = h
IsCoalesced-behind (x ∷ xs) ys h = IsCoalesced-behind xs ys (IsCoalesced-tail x (xs ++ ys) h)

-- A used block may follow anything.
pub IsCoalesced-used :
    (x y : Segment) (ys : List Segment)
    → y.free ≡ false
    → IsCoalesced (y ∷ ys)
    → IsCoalesced (x ∷ y ∷ ys)
IsCoalesced-used x y ys u h = (ground arith, h)

-- The part in front does not see what stands behind a used block, nor whether there is anything.
pub IsCoalesced-replace :
    (xs : List Segment) (y z : Segment) (ys zs : List Segment)
    → z.free ≡ false
    → IsCoalesced (xs ++ (y ∷ ys))
    → IsCoalesced (z ∷ zs)
    → IsCoalesced (xs ++ (z ∷ zs))
IsCoalesced-replace [] y z ys zs u h k = k
IsCoalesced-replace (x ∷ []) y z ys zs u h k = IsCoalesced-used x z zs u k
IsCoalesced-replace (x ∷ x' ∷ xs) y z ys zs u h k =
    (h.0, IsCoalesced-replace (x' ∷ xs) y z ys zs u h.1 k)

-- A free or used block in place of another, at the head.
pub IsCoalesced-same :
    (s t : Segment) (ss : List Segment)
    → s.free ≡ t.free
    → IsCoalesced (s ∷ ss)
    → IsCoalesced (t ∷ ss)
IsCoalesced-same s t [] e h = tt
IsCoalesced-same s t (u ∷ ss) e h = (ground arith, h.1)

pub IsCoalesced-cons_used :
    (t : Segment) (ss : List Segment) → t.free ≡ false → IsCoalesced ss → IsCoalesced (t ∷ ss)
IsCoalesced-cons_used t [] e h = tt
IsCoalesced-cons_used t (u ∷ ss) e h = (ground arith, h)
