-- ===== src/Memory/Deallocation/Merge.antt =====
-- The two joins at the end of `kfree` in kernel/mm/memory.c coalesce the layout around the block.
use os.Prelude.{
  ℕ, ◌+◌, ◌≤◌, ◌≡◌, refl, sym, ap, ◌∙◌, List, [], ◌∷◌, ◌++◌, Option, none, some, true, false,
  if◌then◌else◌, arith, inl, inr, Bool-cases,
}
use mathlib.Core.Path.{subst}
use mathlib.Core.List.{append_assoc}
use os.Memory.Heap.{Cells, header_size, heap_max_bytes}
use os.Memory.Free.{is_free, absorb, merge_next, merge_previous}
use os.Memory.Layout.{Segment, span, IsHeader, Linked, IsCoalesced, span-append}
use os.Memory.Layout.Relink.{At, Linked-At, At-Linked}
use os.Memory.Deallocation.{join, glue, coalesce}
use os.Memory.Deallocation.Coalesce.{coalesce_id, coalesce-append, IsCoalesced-front}
use os.Memory.Deallocation.Absorb.{absorb-At}

-- The block behind `s` in the layout, joined with it if it is free.
abbrev pub joined : Segment → List Segment → Segment
joined s [] = s
joined s (t ∷ ts) = if t.free then join s t else s

abbrev pub left_over : Segment → List Segment → List Segment
left_over s [] = []
left_over s (t ∷ ts) = if t.free then ts else t ∷ ts

glue-joined :
    (s : Segment) (ts : List Segment) → s.free ≡ true → glue s ts ≡ joined s ts ∷ left_over s ts
glue-joined s [] f = refl
glue-joined s (t ∷ ts) f = ground arith

free-joined : (s : Segment) (ts : List Segment) → (joined s ts).free ≡ s.free
free-joined s [] = refl
free-joined s (t ∷ ts) = ground arith

span-joined :
    (s : Segment) (ts : List Segment)
    → header_size + (joined s ts).size + span (left_over s ts) ≡ header_size + s.size + span ts
span-joined s [] = refl
span-joined s (t ∷ ts) = ground arith

joined_used : (s t : Segment) (ts : List Segment) → t.free ≡ false → joined s (t ∷ ts) ≡ s
joined_used s t ts e = ground arith

left_over_used :
    (s t : Segment) (ts : List Segment) → t.free ≡ false → left_over s (t ∷ ts) ≡ t ∷ ts
left_over_used s t ts e = ground arith

is_free-header :
    (c : Cells) (k : ℕ) (p : Option ℕ) (t : Segment) → IsHeader (c k) p t → is_free c k ≡ t.free
is_free-header c k p t h = ground (arith, h.magic, h.free)

pub merge_next-At :
    (c : Cells) (first : Option ℕ) (pre : List Segment) (s : Segment) (post : List Segment)
    (last : Option ℕ)
    → At c first pre s post last
    → span pre + (header_size + s.size + span post) ≤ heap_max_bytes
    → (q : Option ℕ) × At (merge_next c (span pre)) first pre (joined s post) (left_over s post) q
unfolding merge_next
merge_next-At c first pre s [] last at small = (last, rw (at.back.1, merge_next) at)
merge_next-At c first pre s (t ∷ post) last at small =
    let n = span pre + header_size + s.size in
    let free : is_free c n ≡ t.free = is_free-header c n (some (span pre)) t at.back.1 in
    elim (Bool-cases t.free) [
      | inl e ↦
          rw (at.back.0, merge_next, free, e) (absorb-At c first pre s t post last at (omega arith))
      | inr e ↦
          let same : merge_next c (span pre) ≡ c = rw (at.back.0, merge_next, free ∙ e) in
          rw (same, joined_used s t post e, left_over_used s t post e) (last, at)
    ]

-- The last block of a list that has one.
data Snoc : List Segment → Type 0 where
  nothing : Snoc []
  snoc : (xs : List Segment) (p : Segment) → Snoc (xs ++ (p ∷ []))

Snoc-cons : (x : Segment) {xs : List Segment} → Snoc xs → Snoc (x ∷ xs)
Snoc-cons x nothing = snoc [] x
Snoc-cons x (snoc ys p) = snoc (x ∷ ys) p

to_snoc : (xs : List Segment) → Snoc xs
to_snoc [] = nothing
to_snoc (x ∷ xs) = Snoc-cons x (to_snoc xs)

-- What stands where the last block `p` of the front meets the block `g`.
abbrev pub meet : Segment → Segment → List Segment → List Segment
meet p g post = if p.free then join p g ∷ post else p ∷ g ∷ post

merge_previous-none :
    (c : Cells) (first : Option ℕ) (g : Segment) (post : List Segment) (q : Option ℕ)
    → At c first [] g post q
    → merge_previous c 0 ≡ c
unfolding merge_previous
merge_previous-none c first g post q at = rw (at.header.previous ∙ sym at.front.0, merge_previous)

merge_previous-snoc :
    (c : Cells) (first : Option ℕ) (pre : List Segment) (p g : Segment) (post : List Segment)
    (q : Option ℕ)
    → At c first pre p (g ∷ post) q
    → span pre + (header_size + p.size + (header_size + g.size)) ≤ heap_max_bytes
    → (r : Option ℕ) × Linked
        (merge_previous c (span pre + header_size + p.size))
        none
        first
        0
        (pre ++ meet p g post)
        r
        none
unfolding merge_previous
merge_previous-snoc c first pre p g post q at small =
    let free : is_free c (span pre) ≡ p.free = is_free-header c (span pre) at.before p at.header in
    let to_p = at.back.1.previous in
    elim (Bool-cases p.free) [
      | inl e ↦
          let done = absorb-At c first pre p g post q at small in
          let same : merge_previous c (span pre + header_size + p.size)
              ≡ absorb c (span pre) (span pre + header_size + p.size) =
            rw (to_p, merge_previous, free ∙ e) in
          let m : meet p g post ≡ join p g ∷ post = ground arith in
          rw (same, m)
            (
              done.0,
              At-Linked (absorb c (span pre) (span pre + header_size + p.size)) first pre (join p g)
                  post done.0 done.1,
            )
      | inr e ↦
          let same : merge_previous c (span pre + header_size + p.size) ≡ c =
            rw (to_p, merge_previous, free ∙ e) in
          let m : meet p g post ≡ p ∷ g ∷ post = ground arith in
          rw (same, m) (q, At-Linked c first pre p (g ∷ post) q at)
    ]

glue_both :
    (p g : Segment) (r : List Segment)
    → p.free ≡ true
    → g.free ≡ true
    → (glue p (g ∷ r) ≡ join p g ∷ r) × (meet p g r ≡ join p g ∷ r)
glue_both p g r a b = ground arith

glue_used :
    (p g : Segment) (r : List Segment)
    → p.free ≡ false
    → (glue p (g ∷ r) ≡ p ∷ g ∷ r) × (meet p g r ≡ p ∷ g ∷ r)
glue_used p g r a = ground arith

-- Around a block that was in use, coalescing makes the joins of `kfree` and no others.
coalesce-snoc :
    (pre : List Segment) (p s u : Segment) (post : List Segment)
    → s.free ≡ true
    → IsCoalesced (pre ++ (p ∷ u ∷ post))
    → IsCoalesced post
    → coalesce (pre ++ (p ∷ s ∷ post)) ≡ pre ++ meet p (joined s post) (left_over s post)
coalesce-snoc pre p s u post f h k =
    let g = joined s post in
    let rest = left_over s post in
    let gf : g.free ≡ true = free-joined s post ∙ f in
    let inner : glue s (coalesce post) ≡ g ∷ rest =
      ap (glue s) (coalesce_id post k) ∙ glue-joined s post f in
    elim (Bool-cases p.free) [
      | inl e ↦
          let both = glue_both p g rest e gf in
          coalesce-append pre (p ∷ s ∷ post) (join p g) rest (ap (glue p) inner ∙ both.0)
            (IsCoalesced-front pre p (join p g) (u ∷ post) refl h)
          ∙ ap (λ t. pre ++ t) (sym both.1)
      | inr e ↦
          let used = glue_used p g rest e in
          coalesce-append pre (p ∷ s ∷ post) p (g ∷ rest) (ap (glue p) inner ∙ used.0)
            (IsCoalesced-front pre p p (u ∷ post) refl h)
          ∙ ap (λ t. pre ++ t) (sym used.1)
    ]

module _ (c : Cells) (first : Option ℕ) (s u : Segment) (post : List Segment)
    (is_free : s.free ≡ true) where
  abbrev Merged : List Segment → Type 0
  Merged pre =
      (r : Option ℕ) × Linked (merge_previous (merge_next c (span pre)) (span pre)) none first 0
        (coalesce (pre ++ (s ∷ post))) r none

  merged :
      {pre : List Segment}
      → Snoc pre
      → (q : Option ℕ) → At c first pre s post q
      → span pre + (header_size + s.size + span post) ≤ heap_max_bytes
      → IsCoalesced (pre ++ (u ∷ post))
      → IsCoalesced post
      → Merged pre
  merged nothing q at small h k =
      let next = merge_next-At c first [] s post q at small in
      let same =
        merge_previous-none (merge_next c 0) first (joined s post) (left_over s post) next.0
          next.1 in
      let list : coalesce (s ∷ post) ≡ joined s post ∷ left_over s post =
        ap (glue s) (coalesce_id post k) ∙ glue-joined s post is_free in
      rw (same, list)
        (
          next.0,
          At-Linked (merge_next c 0) first [] (joined s post) (left_over s post) next.0 next.1,
        )
  merged (snoc ys p) q at small h k =
      let pre = ys ++ (p ∷ []) in
      let g = joined s post in
      let rest = left_over s post in
      let c1 = merge_next c (span pre) in
      let pos : span pre ≡ span ys + header_size + p.size =
        omega (arith, span-append ys (p ∷ [])) in
      let next = merge_next-At c first pre s post q at small in
      let line =
        subst (λ l. Linked c1 none first 0 l next.0 none) (append_assoc ys (p ∷ []) (g ∷ rest))
          (At-Linked c1 first pre g rest next.0 next.1) in
      let done =
        merge_previous-snoc c1 first ys p g rest next.0
          (Linked-At c1 first ys p (g ∷ rest) next.0 line)
          (omega (arith, pos, span-joined s post)) in
      let list : coalesce (pre ++ (s ∷ post)) ≡ ys ++ meet p g rest =
        ap coalesce (append_assoc ys (p ∷ []) (s ∷ post))
        ∙ coalesce-snoc ys p s u post is_free
            (subst IsCoalesced (append_assoc ys (p ∷ []) (u ∷ post)) h) k in
      rw list (
        done.0,
        subst (λ b. Linked (merge_previous c1 b) none first 0 (ys ++ meet p g rest) done.0 none)
            (sym pos) done.1,
      )

  pub merged-Linked :
      (pre : List Segment) (q : Option ℕ)
      → At c first pre s post q
      → span pre + (header_size + s.size + span post) ≤ heap_max_bytes
      → IsCoalesced (pre ++ (u ∷ post))
      → IsCoalesced post
      → (r : Option ℕ) × Linked
          (merge_previous (merge_next c (span pre)) (span pre))
          none
          first
          0
          (coalesce (pre ++ (s ∷ post)))
          r
          none
  merged-Linked pre q at small h k = merged (to_snoc pre) q at small h k
