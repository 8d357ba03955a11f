-- ===== src/Memory/Deallocation/Lookup.antt =====
-- The search of `kfree` and `krealloc` in kernel/mm/memory.c finds the block of a payload.
use os.Prelude.{
  ℕ, zero, suc, ◌+◌, ◌≤◌, ◌<◌, ◌≡◌, refl, ap, List, [], ◌∷◌, ◌++◌, Option, none, some, ◌==◌, length,
  arith, inl, inr, Bool-cases, Option-cases, add_size,
}
use mathlib.Core.Path.{subst}
use os.Memory.Heap.{Cells, header_size, heap_max_bytes}
use os.Memory.Free.{find_block}
use os.Memory.Layout.{Segment, span, Linked, AllAligned}
use os.Memory.Allocation.{Cut}
use os.Memory.Allocation.Search.{address_of, address_of-behind_of}
use os.Memory.Deallocation.{block_at}

-- With fuel for every block the loop ends at the block of the payload `p`, or at the end of the list.
pub find_block_lem :
    (f : ℕ) (c : Cells) (p cur : Option ℕ) (base target : ℕ) (ss : List Segment) (q : Option ℕ)
    → Linked c p cur base ss q none
    → length ss < f
    → base + span ss ≤ heap_max_bytes
    → find_block f c cur target ≡ address_of base (block_at base target ss)
unfolding find_block
find_block_lem zero c p cur base target ss q h lt small = absurd (omega arith)
find_block_lem (suc f) c p cur base target [] q h lt small = rw h.1
find_block_lem (suc f) c p cur base target (s ∷ ss) q h lt small =
    let ih =
      find_block_lem f c (some base) (c base).next (base + header_size + s.size) target ss q h.2
        (omega arith) (omega arith) in
    let start : add_size base header_size ≡ base + header_size = omega arith in
    rw (h.0, find_block, h.1.magic, start)
      (ground
        (arith, ih, address_of-behind_of base s (block_at (base + header_size + s.size) target ss)))

-- What `block_at` finds is a cut of the layout, and lies inside it.
pub record IsBlock (base target : ℕ) (ss : List Segment) (k : Cut) : Type 0 where
  pub whole : ss ≡ k.before ++ (k.block ∷ k.behind)
  pub start : target ≡ base + span k.before + header_size
  pub inside : base + header_size ≤ target
  pub inside_end : target < base + span ss

pub block_at-IsBlock :
    (base target : ℕ) (ss : List Segment) {k : Cut}
    → AllAligned ss
    → block_at base target ss ≡ some k
    → IsBlock base target ss k
block_at-IsBlock base target [] al e = cc
block_at-IsBlock base target (s ∷ ss) {k} al e =
    elim (Bool-cases ((base + header_size) == target)) [
      | inl hit ↦
          let r : Cut = record { before = []; block = s; behind = ss } in
          let p : r ≡ k = cc (rw hit at e) in
          let t : base + header_size ≡ target = ground arith in
          subst (IsBlock base target (s ∷ ss)) p (record {
            whole = refl;
            start = omega arith;
            inside = omega arith;
            inside_end = omega arith;
          })
      | inr miss ↦ elim (Option-cases (block_at (base + header_size + s.size) target ss)) [
        | inl n ↦ cc (rw (miss, n) at e)
        | inr j ↦
            let r : Cut = record {
              before = s ∷ j.0.before;
              block = j.0.block;
              behind = j.0.behind;
            } in
            let p : r ≡ k = cc (rw (miss, j.1) at e) in
            let ih = block_at-IsBlock (base + header_size + s.size) target ss al.1 j.1 in
            subst (IsBlock base target (s ∷ ss)) p (record {
              whole = ap (λ t. s ∷ t) ih.whole;
              start = omega (arith, ih.start);
              inside = omega (arith, ih.inside);
              inside_end = omega (arith, ih.inside_end);
            })
      ]
    ]
