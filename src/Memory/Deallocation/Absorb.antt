-- ===== src/Memory/Deallocation/Absorb.antt =====
-- What the writes of a join in kernel/mm/memory.c make of the list.
use os.Prelude.{ℕ, ◌+◌, ◌≤◌, ◌≡◌, ◌≢◌, List, ◌∷◌, Option, none, some, arith, add_size}
use mathlib.Core.Path.{subst}
use os.Memory.Heap.{Cells, header_size, heap_max_bytes, modify}
use os.Memory.Free.{absorb}
use os.Memory.Layout.{Segment, span, Linked, Linked-frame}
use os.Memory.Layout.Relink.{Linked-relink, Linked-next, At}
use os.Memory.Deallocation.{join}

module _ (c : Cells) (a n : ℕ) (ne : a ≢ n) where
  absorb_here :
      (c n).next ≢ some a
      → absorb c a n a ≡ record (c a) {
        size = add_size (c a).size (add_size header_size (c n).size);
        next = (c n).next;
      }
  unfolding absorb modify
  absorb_here h = ground arith

  absorb_other : (k : ℕ) → k ≢ a → (c n).next ≢ some k → absorb c a n k ≡ c k
  unfolding absorb modify
  absorb_other k na nn = ground arith

  absorb_next :
      (k : ℕ) → k ≢ a → (c n).next ≡ some k → absorb c a n k ≡ record (c k) { previous = some a }
  unfolding absorb modify
  absorb_next k na e = ground arith

-- Two neighbours become one block of the list.
module _ (c : Cells) (first : Option ℕ) (pre : List Segment) (s t : Segment) (post : List Segment)
    (last : Option ℕ) (at : At c first pre s (t ∷ post) last)
    (small : span pre + (header_size + s.size + (header_size + t.size)) ≤ heap_max_bytes) where
  abbrev a : ℕ
  a = span pre

  abbrev n : ℕ
  n = span pre + header_size + s.size

  abbrev c' : Cells
  c' = absorb c a n

  next_at : (k : ℕ) → (c n).next ≡ some k → k ≡ n + header_size + t.size
  next_at k e = Linked-next c (some n) (c n).next (n + header_size + t.size) post last at.back.2 k e

  next_ne : (k : ℕ) → k ≢ n + header_size + t.size → (c n).next ≢ some k
  next_ne k h e = h (next_at k e)

  pub absorb-At : (q : Option ℕ) × At c' first pre (join s t) post q
  absorb-At =
      let ne : a ≢ n = omega arith in
      let here = absorb_here c a n ne (next_ne a (omega arith)) in
      let relinked =
        Linked-relink c c' (some n) (some a) (c n).next (n + header_size + t.size) post last
          (λ k lo h. absorb_other c a n ne k (omega arith) h)
          (λ k e. absorb_next c a n ne k (omega (arith, next_at k e)) e) at.back.2 in
      (
        relinked.0,
        record {
          before = at.before;
          front =
              Linked-frame c c' none first 0 pre at.before (some a)
                (λ k lo hi. absorb_other c a n ne k (omega arith) (next_ne k (omega arith)))
                at.front;
          header = record {
            magic = rw here at.header.magic;
            size = rw (here, at.header.size, at.back.1.size) (omega arith);
            free = rw here at.header.free;
            previous = rw here at.header.previous;
          };
          back = rw here (
              subst (λ b. Linked c' (some a) (c n).next b post relinked.0 none) (omega arith)
                relinked.1);
        },
      )
