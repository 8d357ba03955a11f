-- ===== src/Memory/Fresh.antt =====
-- Where the memory lies that `kmalloc` of kernel/mm/memory.c returns.
use os.Prelude.{
  ℕ, ◌+◌, ◌-◌, ◌%◌, ◌^◌, ◌≤◌, ◌<◌, ◌≡◌, ◌⊎◌, sym, ap, ◌∙◌, List, [], ◌∷◌, ◌++◌, some, true, false,
  arith, inl, inr, Option-cases,
}
use mathlib.Core.Path.{subst}
use os.Memory.Heap.{Heap, header_size}
use os.Memory.Alloc.{kmalloc}
use os.Memory.Layout.{Segment, span, Represents, AllAligned, span-append}
use os.Memory.Layout.Sums.{AllAligned-parts, span-aligned}
use os.Memory.Allocation.{first_fit}
use os.Memory.Allocation.Search.{first_fit-IsFit}
use os.Memory.Allocation.Correct.{Allocates, round_up, round_up-le, kmalloc-Allocates}

pub true-false : true ≡ false → ⊥
true-false e = cc

abbrev pub tail : List Segment → List Segment
tail [] = []
tail (x ∷ xs) = xs

pub heads : (x y : Segment) (xs ys : List Segment) → x ∷ xs ≡ y ∷ ys → x ≡ y
heads x y xs ys e = cc

-- Two cuts of one layout at different kinds of blocks do not overlap.
apart :
    (xs ys : List Segment) (s t : Segment) (ss ts : List Segment)
    → xs ++ (s ∷ ss) ≡ ys ++ (t ∷ ts)
    → s.free ≡ true
    → t.free ≡ false
    → (span xs + header_size + s.size ≤ span ys) ⊎ (span ys + header_size + t.size ≤ span xs)
apart [] [] s t ss ts e f u = absurd (true-false (sym f ∙ ap (λ x. x.free) (heads s t ss ts e) ∙ u))
apart [] (y ∷ ys) s t ss ts e f u =
    let same = ap (λ x. x.size) (heads s y ss (ys ++ (t ∷ ts)) e) in inl (omega (arith, same))
apart (x ∷ xs) [] s t ss ts e f u =
    let same = ap (λ x. x.size) (heads x t (xs ++ (s ∷ ss)) ts e) in inr (omega (arith, same))
apart (x ∷ xs) (y ∷ ys) s t ss ts e f u =
    let same = ap (λ x. x.size) (heads x y (xs ++ (s ∷ ss)) (ys ++ (t ∷ ts)) e) in
    let rest = apart xs ys s t ss ts (ap tail e) f u in
    elim rest [ inl l ↦ inl (omega (arith, same, l)) | inr r ↦ inr (omega (arith, same, r)) ]

-- The memory that `kmalloc` returns for a size starts at a multiple of 16, lies inside the heap, and
-- overlaps no payload of a block that is in use before the call.
pub kmalloc_fresh :
    (size : ℕ) {h : Heap} (ss : List Segment) {f p : ℕ}
    → Represents h ss
    → h.first ≡ some f
    → 0 < size
    → size ≤ 2 ^ 64 - 16
    → (kmalloc size h).1 ≡ some p
    → (p % 16 ≡ 0)
      × (p + size ≤ h.heap_bytes)
      × ((pre post : List Segment) (t : Segment)
          → ss ≡ pre ++ (t ∷ post)
          → t.free ≡ false
          → (p + size ≤ span pre + header_size) ⊎ (span pre + header_size + t.size ≤ p))
kmalloc_fresh size {h} ss {p = p} v up pos fits got =
    let w = round_up size in
    let made = kmalloc-Allocates size ss v up pos fits in
    elim (Option-cases (first_fit w ss)) [
      | inl n ↦ cc ((rw (n, Allocates) at made).1)
      | inr k ↦
          let (now, result) = rw (k.1, Allocates) at made in
          let fit = first_fit-IsFit w ss k.1 in
          let start : p ≡ span k.0.before + header_size = cc in
          let whole = subst AllAligned fit.whole v.aligned in
          let parts = AllAligned-parts k.0.before (k.0.block ∷ k.0.behind) whole in
          let large : size ≤ w = round_up-le size in
          let filled : span (k.0.before ++ (k.0.block ∷ k.0.behind)) ≡ h.heap_bytes =
            ap span (sym fit.whole) ∙ v.fills in
          (
            omega (arith, start, span-aligned k.0.before parts.0),
            omega (
              arith,
              start,
              filled,
              fit.fits,
              large,
              span-append k.0.before (k.0.block ∷ k.0.behind),
            ),
            λ pre post t e u.
                elim (apart k.0.before pre k.0.block t k.0.behind post (sym fit.whole ∙ e)
                  fit.is_free u) [
                    | inl l ↦ inl (omega (arith, start, l, fit.fits, large))
                    | inr r ↦ inr (omega (arith, start, r))
                  ],
          )
    ]
