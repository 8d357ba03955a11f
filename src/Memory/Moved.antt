-- ===== src/Memory/Moved.antt =====
-- `krealloc` of kernel/mm/memory.c keeps the contents of a block that it moves.
use os.Prelude.{
  ℕ, zero, suc, ◌+◌, ◌-◌, ◌^◌, ◌≤◌, ◌<◌, ◌≡◌, ◌⊎◌, refl, sym, ap, ◌∙◌, List, [], ◌∷◌, ◌++◌, Option,
  none, some, true, false, leb, ◌==◌, length, arith, inl, inr, Bool-cases, Option-cases, add_size,
}
use mathlib.Core.Path.{subst}
use mathlib.Core.List.{append_assoc}
use os.Memory.Heap.{Heap, header_size, block_magic, fuel}
use os.Memory.Alloc.{kmalloc}
use os.Memory.Free.{find_block, kfree}
use os.Memory.Resize.{write_byte, copy_bytes, moved, krealloc}
use os.Memory.Layout.{Segment, span, Represents, span-append, length-le-span}
use os.Memory.Layout.Relink.{Linked-At}
use os.Memory.Allocation.{Cut, first_fit, placed}
use os.Memory.Allocation.Search.{first_fit-IsFit, address_of}
use os.Memory.Allocation.Correct.{Allocates, round_up, kmalloc-Allocates, span-placed}
use os.Memory.Deallocation.{block_at, freed}
use os.Memory.Deallocation.Lookup.{find_block_lem}
use os.Memory.Deallocation.Correct.{Frees, kfree-Frees}
use os.Memory.RoundTrip.{block_at-cut}
use os.Memory.History.{other}
use os.Memory.Fields.{kmalloc-bytes, kfree-bytes}
use os.Memory.Fresh.{heads, tail, true-false, kmalloc_fresh}

-- The copy loop from a range below or above the target.
copy_bytes_out :
    (n i to from : ℕ) (m : ℕ → ℕ) (k : ℕ)
    → to + i + n ≤ 2 ^ 64
    → (k < to + i) ⊎ (to + i + n ≤ k)
    → copy_bytes n i to from m k ≡ m k
unfolding copy_bytes
copy_bytes_out zero i to from m k fits out = refl
copy_bytes_out (suc n) i to from m k fits out =
    let here : add_size to i ≡ to + i = omega arith in
    copy_bytes_out n (i + 1) to from (write_byte m (add_size to i) (m (add_size from i))) k
      (omega arith) (ground arith)
    ∙ ground (arith, here)

copy_bytes_in :
    (n i to from : ℕ) (m : ℕ → ℕ) (k : ℕ)
    → to + i + n ≤ 2 ^ 64
    → from + i + n ≤ 2 ^ 64
    → (to + i + n ≤ from) ⊎ (from + i + n ≤ to)
    → i ≤ k
    → k < i + n
    → copy_bytes n i to from m (to + k) ≡ m (from + k)
unfolding copy_bytes
copy_bytes_in zero i to from m k fits fits' apart lo hi = absurd (omega arith)
copy_bytes_in (suc n) i to from m k fits fits' apart lo hi =
    let here : add_size to i ≡ to + i = omega arith in
    let there : add_size from i ≡ from + i = omega arith in
    let rest = write_byte m (add_size to i) (m (add_size from i)) in
    elim (Bool-cases (k == i)) [
      | inl e ↦
          copy_bytes_out n (i + 1) to from rest (to + k) (omega arith) (inl (ground arith))
          ∙ ground (arith, here, there)
      | inr e ↦
          copy_bytes_in n (i + 1) to from rest k (omega arith) (omega arith) (ground arith)
            (ground arith) (omega arith)
          ∙ ground (arith, here)
    ]

-- A block in use stays where it is when another block is replaced by blocks of the same extent.
stays :
    (xs ys : List Segment) (s t : Segment) (r ss ts : List Segment)
    → span r ≡ header_size + s.size
    → xs ++ (s ∷ ss) ≡ ys ++ (t ∷ ts)
    → s.free ≡ true
    → t.free ≡ false
    → (pre post : List Segment) × (xs ++ (r ++ ss) ≡ pre ++ (t ∷ post)) × (span pre ≡ span ys)
stays [] [] s t r ss ts l e f u =
    absurd (true-false (sym f ∙ ap (λ x. x.free) (heads s t ss ts e) ∙ u))
stays [] (y ∷ ys) s t r ss ts l e f u =
    let same = ap (λ x. x.size) (heads s y ss (ys ++ (t ∷ ts)) e) in
    (
      r ++ ys,
      ts,
      ap (λ z. r ++ z) (ap tail e) ∙ sym (append_assoc r ys (t ∷ ts)),
      omega (arith, span-append r ys, same, l),
    )
stays (x ∷ xs) [] s t r ss ts l e f u =
    ([], xs ++ (r ++ ss), ap (λ z. z ∷ (xs ++ (r ++ ss))) (heads x t (xs ++ (s ∷ ss)) ts e), refl)
stays (x ∷ xs) (y ∷ ys) s t r ss ts l e f u =
    let same = ap (λ x. x.size) (heads x y (xs ++ (s ∷ ss)) (ys ++ (t ∷ ts)) e) in
    let (pre, post, list, extent) = stays xs ys s t r ss ts l (ap tail e) f u in
    (x ∷ pre, post, ap (λ z. x ∷ z) list, omega (arith, same, extent))

module _ {h : Heap} (pre : List Segment) (t : Segment) (post : List Segment)
    (v : Represents h (pre ++ (t ∷ post))) where
  abbrev layout : List Segment
  layout = pre ++ (t ∷ post)

  -- The block is found by its pointer, with its header.
  pub found_block :
      (p : ℕ)
      → p ≡ span pre + header_size
      → (find_block (fuel h) h.cells h.first p ≡ some (span pre))
        × ((h.cells (span pre)).magic ≡ block_magic)
        × ((h.cells (span pre)).size ≡ t.size)
        × ((h.cells (span pre)).free ≡ t.free)
  found_block p start =
      let enough : length layout < fuel h = omega (arith, length-le-span layout, v.fills) in
      let at = Linked-At h.cells h.first pre t post v.last v.linked in
      (
        find_block_lem (fuel h) h.cells none h.first 0 p layout v.last v.linked enough
              (omega (arith, v.small, v.fills))
            ∙ ap (address_of 0) (block_at-cut 0 p pre t post (omega (arith, start)))
            ∙ ap some (omega arith),
        at.header.magic,
        at.header.size,
        at.header.free,
      )

-- The contents of the payloads do not matter for the layout.
Represents-bytes :
    {h : Heap} (ss : List Segment) (m : ℕ → ℕ)
    → Represents h ss
    → Represents (record h { bytes = m }) ss
Represents-bytes ss m v = record {
  last = v.last;
  linked = v.linked;
  fills = v.fills;
  small = v.small;
  aligned = v.aligned;
  coalesced = v.coalesced;
  used_sum = v.used_sum;
  used_count = v.used_count;
}

-- What a move promises: `p` and `q` are the payloads of the old block and of the new one, `n` is the
-- size of the old one.
abbrev pub Keeps : ℕ → ℕ → ℕ → Heap → Heap → Type 0
Keeps p q n h h' =
    ((ss : List Segment) × Represents h' ss)
    × ((i : ℕ) → i < n → h'.bytes (q + i) ≡ h.bytes (p + i))

moved_lem :
    (p a n q : ℕ) (h : Heap) (r : Heap × Option ℕ) (ss : List Segment) (k : Cut)
    → r.1 ≡ some q
    → r.0.bytes ≡ h.bytes
    → (r.0.cells a).size ≡ n
    → Represents r.0 ss
    → block_at 0 p ss ≡ some k
    → k.block.free ≡ false
    → p + n ≤ 2 ^ 64
    → q + n ≤ 2 ^ 64
    → (q + n ≤ p) ⊎ (p + n ≤ q)
    → ((moved p a r).1 ≡ some q) × Keeps p q n h (moved p a r).0
moved_lem p a n q h (h', none) ss k got same size v found in_use fits fits' parted = absurd cc
moved_lem p a n q h (h', some b) ss k got same size v found in_use fits fits' parted =
    let copied : Heap = record h' { bytes = copy_bytes (h'.cells a).size 0 b p h'.bytes } in
    let freeing = kfree-Frees p ss (Represents-bytes ss copied.bytes v) in
    let e : b ≡ q = cc in
    (
      got,
      (
        (
          freed k,
          other (kfree (some p) copied ≡ copied) (Represents (kfree (some p) copied) (freed k))
              in_use (rw (found, Frees) at freeing),
        ),
        λ i lt.
            ap (λ m. m (q + i)) (kfree-bytes (some p) copied)
            ∙ ap (λ n. copy_bytes n 0 b p h'.bytes (q + i)) size
            ∙ ap (λ x. copy_bytes n 0 x p h'.bytes (q + i)) e
            ∙ copy_bytes_in n 0 q p h'.bytes i (omega arith) (omega arith) (ground arith)
                (omega arith) (omega arith)
            ∙ ap (λ m. m (p + i)) same,
      ),
    )

moved_result : (p a : ℕ) (r : Heap × Option ℕ) → (moved p a r).1 ≡ r.1
moved_result p a (h', none) = refl
moved_result p a (h', some q) = refl

-- A block in use that is too small is moved.
krealloc_moves :
    (size : ℕ) {h : Heap} (pre : List Segment) (t : Segment) (post : List Segment)
    → Represents h (pre ++ (t ∷ post))
    → t.free ≡ false
    → t.size < size
    → krealloc (some (span pre + header_size)) size h
      ≡ moved (span pre + header_size) (span pre) (kmalloc size h)
unfolding krealloc
krealloc_moves size {h} pre t post v in_use grows =
    let (found, magic, extent, used) = found_block pre t post v (span pre + header_size) refl in
    let positive : (size == 0) ≡ false = ground arith in
    let short : leb size t.size ≡ false = ground arith in
    rw (positive, found, krealloc, used ∙ in_use, magic, extent, short)

-- Where `krealloc` of a block in use, for more bytes than it has, returns a pointer, the memory at the
-- pointer starts with the contents of the old block, and the heap represents some layout.
pub krealloc-Keeps :
    (size : ℕ) {h : Heap} (pre : List Segment) (t : Segment) (post : List Segment) {f q : ℕ}
    → Represents h (pre ++ (t ∷ post))
    → h.first ≡ some f
    → t.free ≡ false
    → t.size < size
    → size ≤ 2 ^ 64 - 16
    → (krealloc (some (span pre + header_size)) size h).1 ≡ some q
    → Keeps (span pre + header_size) q t.size h (krealloc (some (span pre + header_size)) size h).0
krealloc-Keeps size {h} pre t post {f} {q} v up in_use grows fits got =
    let p = span pre + header_size in
    let ss = pre ++ (t ∷ post) in
    let w = round_up size in
    let reduced = krealloc_moves size pre t post v in_use grows in
    let given : (kmalloc size h).1 ≡ some q =
      sym (moved_result p (span pre) (kmalloc size h)) ∙ ap (λ r. r.1) (sym reduced) ∙ got in
    let made = kmalloc-Allocates size ss v up (omega arith) fits in
    let (mult, inside, parted) = kmalloc_fresh size ss v up (omega arith) fits given in
    subst (λ r. Keeps p q t.size h r.0) (sym reduced)
      (elim (Option-cases (first_fit w ss)) [
        | inl n ↦ cc ((rw (n, Allocates) at made).1)
        | inr k ↦
            let now = (rw (k.1, Allocates) at made).0 in
            let fit = first_fit-IsFit w ss k.1 in
            let (pre', post', list, extent) =
              stays k.0.before pre k.0.block t (placed w k.0.block) k.0.behind post
                (span-placed k.0.before k.0.block k.0.behind w fit.is_free) (sym fit.whole)
                fit.is_free in_use in
            let now' : Represents (kmalloc size h).0 (pre' ++ (t ∷ post')) =
              subst (Represents (kmalloc size h).0) list now in
            let size' = (found_block pre' t post' now' p (omega (arith, extent))).2 in
            (moved_lem p (span pre) t.size q h (kmalloc size h) (pre' ++ (t ∷ post'))
              (record { before = pre'; block = t; behind = post' }) given (kmalloc-bytes size h)
              (ap (λ a. ((kmalloc size h).0.cells a).size) (sym extent) ∙ size') now'
              (block_at-cut 0 p pre' t post' (omega (arith, extent))) in_use
              (omega (arith, v.fills, v.small, span-append pre (t ∷ post)))
              (omega (arith, inside, v.small)) (ground (arith, parted pre post t refl in_use))).1
      ])
