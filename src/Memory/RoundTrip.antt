-- ===== src/Memory/RoundTrip.antt =====
-- `kfree` of kernel/mm/memory.c undoes `kmalloc`.
use os.Prelude.{
  ℕ, ◌+◌, ◌-◌, ◌^◌, ◌≤◌, ◌<◌, ◌≡◌, refl, sym, ap, ◌∙◌, List, [], ◌∷◌, ◌++◌, some, true, false,
  if◌then◌else◌, leb, ◌==◌, arith, inl, inr, Bool-cases, Option-cases, leb→le,
}
use mathlib.Core.Path.{subst}
use os.Memory.Heap.{Heap, header_size, min_payload}
use os.Memory.Alloc.{kmalloc}
use os.Memory.Free.{kfree}
use os.Memory.Layout.{Segment, span, Represents, IsCoalesced}
use os.Memory.Layout.Sums.{IsCoalesced-behind, IsCoalesced-same}
use os.Memory.Allocation.{behind_of, first_fit, placed, allocated}
use os.Memory.Allocation.Search.{first_fit-IsFit}
use os.Memory.Allocation.Correct.{Allocates, round_up, kmalloc-Allocates}
use os.Memory.Deallocation.{coalesce, block_at}
use os.Memory.Deallocation.Coalesce.{coalesce_id, coalesce-append, IsCoalesced-front}
use os.Memory.Deallocation.Correct.{Frees, kfree-Frees}

pub block_at-cut :
    (base p : ℕ) (pre : List Segment) (s : Segment) (post : List Segment)
    → p ≡ base + span pre + header_size
    → block_at base p (pre ++ (s ∷ post)) ≡ some (record { before = pre; block = s; behind = post })
block_at-cut base p [] s post e = ground arith
block_at-cut base p (x ∷ pre) s post e =
    let miss : ((base + header_size) == p) ≡ false = ground arith in
    rw miss
      (ap (behind_of x) (block_at-cut (base + header_size + x.size) p pre s post (omega arith)))

-- The block in use that `placed` puts first, and what it puts behind it.
abbrev placed_block : ℕ → Segment → Segment
placed_block w s = record {
  size = if leb (w + header_size + min_payload) s.size then w else s.size;
  free = false;
}

abbrev placed_rest : ℕ → Segment → List Segment
placed_rest w s =
    if leb (w + header_size + min_payload) s.size
    then record { size = s.size - w - header_size; free = true } ∷ []
    else []

placed-parts : (w : ℕ) (s : Segment) → placed w s ≡ placed_block w s ∷ placed_rest w s
placed-parts w s = ground arith

segment_eq : (a b : Segment) → a.size ≡ b.size → a.free ≡ b.free → a ≡ b
segment_eq a b p q = ground arith

-- The split block and its rest join to the block that was split.
rejoined :
    (w : ℕ) (s : Segment) (post : List Segment)
    → s.free ≡ true
    → w ≤ s.size
    → IsCoalesced (s ∷ post)
    → coalesce (record { size = (placed_block w s).size; free = true } ∷ (placed_rest w s ++ post))
      ≡ s ∷ post
rejoined w s post f fits h = elim (Bool-cases (leb (w + header_size + min_payload) s.size)) [
  | inl e ↦
      let rest : Segment = record { size = s.size - w - header_size; free = true } in
      let room = leb→le (w + header_size + min_payload) s.size e in
      let kept = coalesce_id (rest ∷ post) (IsCoalesced-same s rest post f h) in
      let both : Segment = record {
        size = w + (header_size + (s.size - w - header_size));
        free = true;
      } in
      rw (e, kept) (ap (λ x. x ∷ post) (segment_eq both s (omega arith) (sym f)))
  | inr e ↦
      let whole : Segment = record { size = s.size; free = true } in
      rw e (
        coalesce_id (whole ∷ post) (IsCoalesced-same s whole post f h)
        ∙ ap (λ x. x ∷ post) (segment_eq whole s refl (sym f)))
]

-- Freeing what was just allocated gives back the blocks that there were: for every size, if `kmalloc`
-- returns a pointer then `kfree` of it, on the heap that `kmalloc` leaves, makes the heap represent the
-- layout from before the allocation.
pub kfree-kmalloc :
    (size : ℕ) {h : Heap} (ss : List Segment) {f p : ℕ}
    → Represents h ss
    → h.first ≡ some f
    → 0 < size
    → size ≤ 2 ^ 64 - 16
    → (kmalloc size h).1 ≡ some p
    → Represents (kfree (some p) (kmalloc size h).0) ss
kfree-kmalloc size {h} ss {p = p} v up pos fits got =
    let w = round_up size in
    let made = kmalloc-Allocates size ss v up pos fits in
    elim (Option-cases (first_fit w ss)) [
      | inl n ↦ cc ((rw (n, Allocates) at made).1)
      | inr k ↦
          let (now, result) = rw (k.1, Allocates) at made in
          let fit = first_fit-IsFit w ss k.1 in
          let s = k.0.block in
          let c = placed_block w s in
          let rest = placed_rest w s ++ k.0.behind in
          let start : p ≡ span k.0.before + header_size = cc in
          let whole : IsCoalesced (k.0.before ++ (s ∷ k.0.behind)) =
            subst IsCoalesced fit.whole v.coalesced in
          let list : allocated w k.0 ≡ k.0.before ++ (c ∷ rest) =
            ap (λ t. k.0.before ++ (t ++ k.0.behind)) (placed-parts w s) in
          let now' = subst (Represents (kmalloc size h).0) list now in
          let found : block_at 0 p (k.0.before ++ (c ∷ rest))
              ≡ some (record { before = k.0.before; block = c; behind = rest }) =
            block_at-cut 0 p k.0.before c rest (omega arith) in
          let after = kfree-Frees p (k.0.before ++ (c ∷ rest)) now' in
          let back : coalesce (k.0.before ++ (record { size = c.size; free = true } ∷ rest)) ≡ ss =
            coalesce-append k.0.before (record { size = c.size; free = true } ∷ rest) s k.0.behind
              (rejoined w s k.0.behind fit.is_free fit.fits
                (IsCoalesced-behind k.0.before (s ∷ k.0.behind) whole))
              (IsCoalesced-front k.0.before s s k.0.behind refl whole)
            ∙ sym fit.whole in
          subst (Represents (kfree (some p) (kmalloc size h).0)) back (rw (found, Frees) at after)
    ]
