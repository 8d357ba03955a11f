-- ===== src/Memory/Deallocation/Correct.antt =====
-- `kfree` of kernel/mm/memory.c implements freeing and coalescing on the layout.
use os.Prelude.{
  ℕ, ◌+◌, ◌<◌, ◌≡◌, refl, ap, ◌∙◌, List, ◌∷◌, ◌++◌, none, some, true, false, ◌||◌, if◌then◌else◌,
  ltb, leb, length, arith, inl, inr, Bool-cases, Option-cases, sub_size,
}
use mathlib.Core.Path.{subst}
use os.Memory.Heap.{Heap, block_magic, header_size, modify, fuel}
use os.Memory.Free.{find_block, free_block, release, kfree}
use os.Memory.Layout.{
  Segment, span, Represents, used_bytes, used_blocks, span-append, length-le-span,
}
use os.Memory.Layout.Sums.{
  used_bytes-append, used_blocks-append, used_bytes-le, AllAligned-append, AllAligned-parts,
  IsCoalesced-behind, IsCoalesced-tail,
}
use os.Memory.Layout.Relink.{At, Linked-At}
use os.Memory.Allocation.Search.{address_of}
use os.Memory.Allocation.Split.{set_free-At}
use os.Memory.Deallocation.{coalesce, block_at, freed}
use os.Memory.Deallocation.Coalesce.{
  span-coalesce, used_bytes-coalesce, used_blocks-coalesce, AllAligned-coalesce,
  IsCoalesced-coalesce,
}
use os.Memory.Deallocation.Lookup.{find_block_lem, block_at-IsBlock}
use os.Memory.Deallocation.Merge.{merged-Linked}

module _ {h : Heap} (pre : List Segment) (u : Segment) (post : List Segment)
    (v : Represents h (pre ++ (u ∷ post))) (in_use : u.free ≡ false) where
  abbrev loose : Segment
  loose = record { size = u.size; free = true }

  abbrev opened : List Segment
  opened = pre ++ (loose ∷ post)

  at : At h.cells h.first pre u post v.last
  at = Linked-At h.cells h.first pre u post v.last v.linked

  bound : span pre + (header_size + u.size + span post) ≡ h.heap_bytes
  bound = omega (arith, span-append pre (u ∷ post), v.fills)

  sums :
      (used_bytes opened + u.size ≡ used_bytes (pre ++ (u ∷ post)))
      × (used_blocks opened + 1 ≡ used_blocks (pre ++ (u ∷ post)))
  sums = ground (
    arith,
    used_bytes-append pre (u ∷ post),
    used_bytes-append pre (loose ∷ post),
    used_blocks-append pre (u ∷ post),
    used_blocks-append pre (loose ∷ post),
  )

  counted_bytes : sub_size h.used u.size ≡ used_bytes (coalesce opened)
  counted_bytes = omega (
    arith,
    v.used_sum,
    v.fills,
    v.small,
    sums,
    used_bytes-coalesce opened,
    used_bytes-le (pre ++ (u ∷ post)),
  )

  release-Represents : Represents (release h (span pre)) (coalesce opened)
  unfolding release
  release-Represents =
      let opened_at = set_free-At h.cells h.first pre u post v.last true at in
      let done =
        merged-Linked (modify h.cells (span pre) free_block) h.first loose u post refl pre v.last
          opened_at (omega (arith, bound, v.small)) v.coalesced
          (IsCoalesced-tail u post (IsCoalesced-behind pre (u ∷ post) v.coalesced)) in
      let parts = AllAligned-parts pre (u ∷ post) v.aligned in
      record {
        last = done.0;
        linked = done.1;
        fills = span-coalesce opened ∙ omega (arith, span-append pre (loose ∷ post), bound);
        small = v.small;
        aligned = AllAligned-coalesce opened (AllAligned-append pre (loose ∷ post) parts.0 parts.1);
        coalesced = IsCoalesced-coalesce opened;
        used_sum = ap (sub_size h.used) at.header.size ∙ counted_bytes;
        used_count = ground (arith, v.used_count, sums, used_blocks-coalesce opened);
      }

-- What `kfree` promises for a pointer: if it is the start of the payload of a block in use, that block
-- becomes free and the layout is coalesced; any other pointer changes nothing.
abbrev pub Frees : ℕ → List Segment → Heap → Heap → Type 0
Frees p ss h h' = elim (block_at 0 p ss) [
  | none ↦ h' ≡ h
  | some k ↦ if k.block.free then h' ≡ h else Represents h' (freed k)
]

kfree_missing :
    (p : ℕ) (h : Heap) → find_block (fuel h) h.cells h.first p ≡ none → kfree (some p) h ≡ h
unfolding kfree
kfree_missing p h n = elim (Bool-cases (ltb p header_size || leb h.heap_bytes p)) [
  | inl e ↦ rw e
  | inr e ↦ rw (e, kfree, n)
]

kfree_found :
    (p a : ℕ) (h : Heap)
    → (ltb p header_size || leb h.heap_bytes p) ≡ false
    → find_block (fuel h) h.cells h.first p ≡ some a
    → (h.cells a).magic ≡ block_magic
    → kfree (some p) h ≡ (if (h.cells a).free then h else release h a)
unfolding kfree
kfree_found p a h e found m = rw (e, kfree, found, m)

-- On a represented heap `kfree` of a non-null pointer frees exactly the block in use whose payload
-- starts there and coalesces it with its free neighbours: the blocks stay linked in both directions,
-- fill the heap, and agree with the counters. Any other pointer, outside of the heap, inside of a
-- block or to a free block, leaves the heap as it is.
pub kfree-Frees :
    (p : ℕ) {h : Heap} (ss : List Segment) → Represents h ss → Frees p ss h (kfree (some p) h)
unfolding kfree
kfree-Frees p {h} ss v =
    let enough : length ss < fuel h = omega (arith, length-le-span ss, v.fills) in
    let found =
      find_block_lem (fuel h) h.cells none h.first 0 p ss v.last v.linked enough
        (omega (arith, v.small, v.fills)) in
    elim (Option-cases (block_at 0 p ss)) [
      | inl n ↦ rw (n, Frees) (kfree_missing p h (found ∙ ap (address_of 0) n))
      | inr k ↦
          let fit = block_at-IsBlock 0 p ss v.aligned k.1 in
          let v' : Represents h (k.0.before ++ (k.0.block ∷ k.0.behind)) =
            subst (Represents h) fit.whole v in
          let at = Linked-At h.cells h.first k.0.before k.0.block k.0.behind v'.last v'.linked in
          let here : find_block (fuel h) h.cells h.first p ≡ some (span k.0.before) =
            found ∙ ap (address_of 0) k.1 ∙ ap some (omega arith) in
          let inside : (ltb p header_size || leb h.heap_bytes p) ≡ false =
            ground (arith, fit.inside, fit.inside_end, v.fills) in
          let result = kfree_found p (span k.0.before) h inside here at.header.magic in
          elim (Bool-cases k.0.block.free) [
            | inl f ↦
                rw (k.1, Frees, f)
                  (result
                    ∙ ap (λ b. if b then h else release h (span k.0.before)) (at.header.free ∙ f))
            | inr f ↦
                let released : kfree (some p) h ≡ release h (span k.0.before) =
                  result
                  ∙ ap (λ b. if b then h else release h (span k.0.before)) (at.header.free ∙ f) in
                rw (k.1, Frees, f, released)
                  (release-Represents k.0.before k.0.block k.0.behind v' f)
          ]
    ]
