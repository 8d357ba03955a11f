-- ===== src/Memory/Allocation/Correct.antt =====
-- `kmalloc` of kernel/mm/memory.c implements the first fit on the layout.
use os.Prelude.{
  ℕ, ◌+◌, ◌-◌, ◌*◌, ◌/◌, ◌%◌, ◌^◌, ◌≤◌, ◌<◌, ◌≡◌, ◌⊎◌, refl, ap, ◌∙◌, List, [], ◌∷◌, ◌++◌, Option,
  none, some, true, false, ◌||◌, if◌then◌else◌, leb, ◌==◌, length, arith, inl, inr, Bool-cases,
  Option-cases, add_size, leb→le,
}
use mathlib.Core.Path.{subst}
use os.Memory.Heap.{Heap, header_size, min_payload, heap_max_bytes, modify, fuel, align_up, is_null}
use os.Memory.Alloc.{split, take_block, occupy, find_fit, allocate, kmalloc}
use os.Memory.Layout.{
  Segment, span, Linked, Represents, AllAligned, IsCoalesced, used_bytes, used_blocks, span-append,
  length-le-span,
}
use os.Memory.Layout.Sums.{
  used_bytes-append, used_blocks-append, used_bytes-le, used_blocks-le, AllAligned-append,
  AllAligned-parts, IsCoalesced-replace, IsCoalesced-behind, IsCoalesced-tail, IsCoalesced-same,
  IsCoalesced-cons_used,
}
use os.Memory.Layout.Relink.{At, Linked-At, At-Linked}
use os.Memory.Allocation.{first_fit, placed, allocated}
use os.Memory.Allocation.Search.{first_fit-IsFit, find_fit_lem, address_of}
use os.Memory.Allocation.Split.{split-At, split_size, set_free-At}

-- The layout after an allocation: it is as long, and has one more block in use.
module _ (pre : List Segment) (s : Segment) (post : List Segment) (w : ℕ)
    (is_free : s.free ≡ true) where
  pub span-placed : span (placed w s) ≡ header_size + s.size
  span-placed = ground arith

  -- The size of the block in use.
  abbrev pub granted : ℕ
  granted = if leb (w + header_size + min_payload) s.size then w else s.size

  sums-placed :
      (used_bytes (placed w s) ≡ granted)
      × (used_blocks (placed w s) ≡ 1)
      × (used_bytes (s ∷ []) ≡ 0)
      × (used_blocks (s ∷ []) ≡ 0)
  sums-placed = ground (arith, is_free)

  aligned-placed : w % 16 ≡ 0 → 16 ≤ w → (s.size % 16 ≡ 0) × (16 ≤ s.size) → AllAligned (placed w s)
  aligned-placed m l h = elim (Bool-cases (leb (w + header_size + min_payload) s.size)) [
    | inl e ↦
        let fit = leb→le (w + header_size + min_payload) s.size e in
        rw e ((m, l), ((omega arith, omega arith), tt))
    | inr e ↦ rw e (h, tt)
  ]

  IsCoalesced-placed : IsCoalesced (pre ++ (s ∷ post)) → IsCoalesced (pre ++ (placed w s ++ post))
  IsCoalesced-placed h = elim (Bool-cases (leb (w + header_size + min_payload) s.size)) [
    | inl e ↦
        let rest : Segment = record { size = s.size - w - header_size; free = true } in
        rw e (
          IsCoalesced-replace pre s (record { size = w; free = false }) post (rest ∷ post) refl h
            (IsCoalesced-cons_used (record { size = w; free = false }) (rest ∷ post) refl
              (IsCoalesced-same s rest post is_free (IsCoalesced-behind pre (s ∷ post) h))))
    | inr e ↦
        let whole : Segment = record { size = s.size; free = false } in
        rw e (
          IsCoalesced-replace pre s whole post post refl h (
            IsCoalesced-cons_used whole post refl
              (IsCoalesced-tail s post (IsCoalesced-behind pre (s ∷ post) h))))
  ]

module _ {h : Heap} (pre : List Segment) (s : Segment) (post : List Segment) (w : ℕ)
    (v : Represents h (pre ++ (s ∷ post))) (is_free : s.free ≡ true) (fits : w ≤ s.size)
    (mult : w % 16 ≡ 0) (least : 16 ≤ w) where
  at : At h.cells h.first pre s post v.last
  at = Linked-At h.cells h.first pre s post v.last v.linked

  bound : span pre + (header_size + s.size + span post) ≡ h.heap_bytes
  bound = omega (arith, span-append pre (s ∷ post), v.fills)

  -- The code's test for a split is the layout's.
  test :
      leb (add_size (add_size w header_size) min_payload) (h.cells (span pre)).size
      ≡ leb (w + header_size + min_payload) s.size
  test =
      let e : add_size (add_size w header_size) min_payload ≡ w + header_size + min_payload =
        omega (arith, bound, v.small) in
      rw (e, at.header.size)

  -- The headers and the size that is counted, after the writes.
  writes :
      (q : Option ℕ) × Linked
        (occupy h (span pre) w).cells
        none
        h.first
        0
        (pre ++ (placed w s ++ post))
        q
        none
      × ((occupy h (span pre) w).used ≡ add_size h.used (granted pre s post w is_free))
  unfolding occupy
  writes = elim (Bool-cases (leb (w + header_size + min_payload) s.size)) [
    | inl e ↦
        let room = leb→le (w + header_size + min_payload) s.size e in
        let small : span pre + header_size + s.size ≤ heap_max_bytes =
          omega (arith, bound, v.small) in
        let done = split-At h.cells h.first pre s post v.last w at room small in
        rw (test, e)
          (
            done.0,
            At-Linked (modify (split h.cells (span pre) w) (span pre) take_block) h.first pre
                (record { size = w; free = false })
                (record { size = s.size - w - header_size; free = true } ∷ post) done.0 done.1,
            ap (add_size h.used) (split_size h.cells h.first pre s post v.last w at room small),
          )
    | inr e ↦
        let done = set_free-At h.cells h.first pre s post v.last false at in
        rw (test, e)
          (
            v.last,
            At-Linked (modify h.cells (span pre) take_block) h.first pre
                (record { size = s.size; free = false }) post v.last done,
            ap (add_size h.used) at.header.size,
          )
  ]

  after_span : span (pre ++ (placed w s ++ post)) ≡ h.heap_bytes
  after_span = omega (
    arith,
    bound,
    span-append pre (placed w s ++ post),
    span-append (placed w s) post,
    span-placed pre s post w is_free,
  )

  counted_bytes :
      add_size h.used (granted pre s post w is_free) ≡ used_bytes (pre ++ (placed w s ++ post))
  counted_bytes = omega (
    arith,
    v.used_sum,
    v.small,
    after_span,
    sums-placed pre s post w is_free,
    used_bytes-append pre (s ∷ post),
    used_bytes-append pre (placed w s ++ post),
    used_bytes-append (placed w s) post,
    used_bytes-le (pre ++ (placed w s ++ post)),
  )

  counted_blocks : add_size h.allocations 1 ≡ used_blocks (pre ++ (placed w s ++ post))
  counted_blocks = omega (
    arith,
    v.used_count,
    v.small,
    after_span,
    sums-placed pre s post w is_free,
    used_blocks-append pre (s ∷ post),
    used_blocks-append pre (placed w s ++ post),
    used_blocks-append (placed w s) post,
    used_blocks-le (pre ++ (placed w s ++ post)),
  )

  -- Taking the block turns the layout into the allocated one.
  pub occupy-Represents : Represents (occupy h (span pre) w) (pre ++ (placed w s ++ post))
  unfolding occupy
  occupy-Represents =
      let n = writes in
      let parts = AllAligned-parts pre (s ∷ post) v.aligned in
      record {
        last = n.0;
        linked = n.1;
        fills = after_span;
        small = v.small;
        aligned = AllAligned-append pre (placed w s ++ post) parts.0 (
            AllAligned-append (placed w s) post
              (aligned-placed pre s post w is_free mult least parts.1.0) parts.1.1);
        coalesced = IsCoalesced-placed pre s post w is_free v.coalesced;
        used_sum = n.2 ∙ counted_bytes;
        used_count = counted_blocks;
      }

-- What `kmalloc` promises for a size: with no free block that is large enough for it, rounded up to 16,
-- nothing changes and the result is null; else the first such block is taken, split if there is room
-- for a second one, and the result is the start of its payload.
abbrev pub Allocates : ℕ → List Segment → Heap → Heap × Option ℕ → Type 0
Allocates wanted ss h (h', p) = elim (first_fit wanted ss) [
  | none ↦ (h' ≡ h) × (p ≡ none)
  | some k ↦ Represents h' (allocated wanted k) × (p ≡ some (span k.before + header_size))
]

unfoldable pub round_up : ℕ → ℕ
round_up size = (size + 15) / 16 * 16

pub round_up-le : (size : ℕ) → size ≤ round_up size
unfolding round_up
round_up-le size = omega arith

align_up_lem : (size : ℕ) → size ≤ 2 ^ 64 - 16 → align_up size ≡ round_up size
unfolding align_up round_up
align_up_lem size h = ground arith

align_up_over : (size : ℕ) → size < 2 ^ 64 → 2 ^ 64 - 16 < size → align_up size ≡ 0
unfolding align_up
align_up_over size lt h = ground arith

allocate-Allocates :
    (wanted : ℕ) {h : Heap} {ss : List Segment}
    → Represents h ss
    → wanted % 16 ≡ 0
    → 16 ≤ wanted
    → Allocates wanted ss h (allocate wanted h)
allocate-Allocates wanted {h} {ss} v mult least =
    let enough : length ss < fuel h = omega (arith, length-le-span ss, v.fills) in
    let found = find_fit_lem (fuel h) h.cells none h.first 0 wanted ss v.last v.linked enough in
    elim (Option-cases (first_fit wanted ss)) [
      | inl n ↦ rw (n, Allocates, allocate, found ∙ ap (address_of 0) n) (refl, refl)
      | inr k ↦
          let fit = first_fit-IsFit wanted ss k.1 in
          let v' : Represents h (k.0.before ++ (k.0.block ∷ k.0.behind)) =
            subst (Represents h) fit.whole v in
          let here : find_fit (fuel h) h.cells h.first wanted ≡ some (span k.0.before) =
            found ∙ ap (address_of 0) k.1 ∙ ap some (omega arith) in
          let in_heap : span k.0.before ≤ heap_max_bytes =
            omega (arith, v.small, v'.fills, span-append k.0.before (k.0.block ∷ k.0.behind)) in
          rw (k.1, Allocates, allocate, here)
            (
              occupy-Represents k.0.before k.0.block k.0.behind wanted v' fit.is_free fit.fits mult
                  least,
              ap some {y = span k.0.before + header_size} (omega arith),
            )
    ]

-- On a heap that has blocks, `kmalloc` of a size between 1 and 2^64 - 16 allocates the size rounded
-- up to 16 by first fit: if no free block is large enough the heap is unchanged and the result null;
-- otherwise the blocks become those of the allocated layout, all still linked, coalesced and counted,
-- and the result is the payload of the first free block that is large enough.
pub kmalloc-Allocates :
    (size : ℕ) {h : Heap} (ss : List Segment) {f : ℕ}
    → Represents h ss
    → h.first ≡ some f
    → 0 < size
    → size ≤ 2 ^ 64 - 16
    → Allocates (round_up size) ss h (kmalloc size h)
unfolding kmalloc
kmalloc-Allocates size {h} ss v up pos fits =
    let rounded = align_up_lem size fits in
    let mult : round_up size % 16 ≡ 0 = unfold round_up in omega arith in
    let least : 16 ≤ round_up size = unfold round_up in omega arith in
    let tested : (size == 0 || is_null h.first) ≡ false = ground arith in
    let nonzero : (round_up size == 0) ≡ false = ground arith in
    rw (tested, kmalloc, rounded, nonzero) (allocate-Allocates (round_up size) v mult least)

-- Other sizes are refused, and so is every size where the heap has no block.
pub kmalloc_refused :
    (size : ℕ) (h : Heap)
    → size < 2 ^ 64
    → ((size ≡ 0) ⊎ (2 ^ 64 - 16 < size)) ⊎ (h.first ≡ none)
    → kmalloc size h ≡ (h, none)
unfolding kmalloc
kmalloc_refused size h lt why = ground (arith, align_up_over size lt)
