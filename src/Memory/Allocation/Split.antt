-- ===== src/Memory/Allocation/Split.antt =====
-- What the writes of `kmalloc` in kernel/mm/memory.c make of the block that it takes.
use os.Prelude.{
  ℕ, ◌+◌, ◌-◌, ◌≤◌, ◌≡◌, ◌≢◌, List, ◌∷◌, Option, none, some, Bool, true, false, arith, add_size,
  sub_size,
}
use mathlib.Core.Path.{subst}
use os.Memory.Heap.{
  Cells, block_magic, header_size, min_payload, heap_max_bytes, modify, modify_self, modify_ne,
}
use os.Memory.Alloc.{split, take_block}
use os.Memory.Layout.{Segment, span, Linked, Linked-frame}
use os.Memory.Layout.Relink.{Linked-relink, Linked-next, At}

-- The headers after `split`, where the next block lies behind the block.
module _ (c : Cells) (a w r : ℕ) (e : add_size (add_size a header_size) w ≡ r) (ne : a ≢ r) where
  split_rest :
      (c a).next ≢ some r
      → split c a w r ≡ record {
        magic = block_magic;
        size = sub_size (sub_size (c a).size w) header_size;
        previous = some a;
        next = (c a).next;
        free = true;
      }
  unfolding split modify
  split_rest n = ground (arith, e)

  split_here : (c a).next ≢ some a → split c a w a ≡ record (c a) { next = some r; size = w }
  unfolding split modify
  split_here n = ground (arith, e)

  split_other : (k : ℕ) → k ≢ a → k ≢ r → (c a).next ≢ some k → split c a w k ≡ c k
  unfolding split modify
  split_other k na nr nn = ground (arith, e)

  split_next :
      (k : ℕ)
      → k ≢ a
      → k ≢ r
      → (c a).next ≡ some k
      → split c a w k ≡ record (c k) { previous = some r }
  unfolding split modify
  split_next k na nr nn = ground (arith, e)

-- After the split the block of the size wanted, in use, and the free rest stand in the list.
module _ (c : Cells) (first : Option ℕ) (pre : List Segment) (s : Segment) (post : List Segment)
    (last : Option ℕ) (w : ℕ) (at : At c first pre s post last)
    (room : w + header_size + min_payload ≤ s.size)
    (small : span pre + header_size + s.size ≤ heap_max_bytes) where
  abbrev a : ℕ
  a = span pre

  abbrev r : ℕ
  r = span pre + header_size + w

  abbrev c' : Cells
  c' = modify (split c a w) a take_block

  address : add_size (add_size a header_size) w ≡ r
  address = omega arith

  next_at : (k : ℕ) → (c a).next ≡ some k → k ≡ a + header_size + s.size
  next_at k e = Linked-next c (some a) (c a).next (a + header_size + s.size) post last at.back k e

  next_ne : (k : ℕ) → k ≢ a + header_size + s.size → (c a).next ≢ some k
  next_ne k n e = n (next_at k e)

  c'_here : c' a ≡ record (c a) { next = some r; size = w; free = false }
  unfolding modify
  c'_here = ground (arith, split_here c a w r address (omega arith) (next_ne a (omega arith)))

  c'_rest : c' r ≡ record {
    magic = block_magic;
    size = sub_size (sub_size (c a).size w) header_size;
    previous = some a;
    next = (c a).next;
    free = true;
  }
  unfolding modify
  c'_rest = ground (arith, split_rest c a w r address (omega arith) (next_ne r (omega arith)))

  c'_other : (k : ℕ) → k ≢ a → k ≢ r → (c a).next ≢ some k → c' k ≡ c k
  unfolding modify
  c'_other k na nr nn = ground (arith, split_other c a w r address (omega arith) k na nr nn)

  c'_next : (k : ℕ) → (c a).next ≡ some k → c' k ≡ record (c k) { previous = some r }
  unfolding modify
  c'_next k e =
      let here = next_at k e in
      ground (arith, split_next c a w r address (omega arith) k (omega arith) (omega arith) e)

  pub split_size : (split c a w a).size ≡ w
  split_size = rw (split_here c a w r address (omega arith) (next_ne a (omega arith)))

  pub split-At :
      (q : Option ℕ) × At c' first pre
        (record { size = w; free = false })
        (record { size = s.size - w - header_size; free = true } ∷ post)
        q
  split-At =
      let relinked =
        Linked-relink c c' (some a) (some r) (c a).next (a + header_size + s.size) post last
          (λ k lo n. c'_other k (omega arith) (omega arith) n) c'_next at.back in
      (
        relinked.0,
        record {
          before = at.before;
          front =
              Linked-frame c c' none first 0 pre at.before (some a)
                (λ k lo hi. c'_other k (omega arith) (omega arith) (next_ne k (omega arith)))
                at.front;
          header = record {
            magic = rw c'_here at.header.magic;
            size = rw c'_here;
            free = rw c'_here;
            previous = rw c'_here at.header.previous;
          };
          back = (
            rw c'_here,
            record {
              magic = rw c'_rest;
              size = rw (c'_rest, at.header.size) (omega arith);
              free = rw c'_rest;
              previous = rw c'_rest;
            },
            rw c'_rest (
                subst (λ b. Linked c' (some r) (c a).next b post relinked.0 none) (omega arith)
                  relinked.1),
          );
        },
      )

-- A header that changes in nothing but being free.
pub set_free-At :
    (c : Cells) (first : Option ℕ) (pre : List Segment) (s : Segment) (post : List Segment)
    (last : Option ℕ) (f : Bool)
    → At c first pre s post last
    → At
        (modify c (span pre) (λ b. record b { free = f }))
        first
        pre
        (record { size = s.size; free = f })
        post
        last
set_free-At c first pre s post last f at =
    let c' = modify c (span pre) (λ b. record b { free = f }) in
    let here : c' (span pre) ≡ record (c (span pre)) { free = f } =
      modify_self c (span pre) (λ b. record b { free = f }) in
    let other =
      λ (k : ℕ) (n : k ≢ span pre). modify_ne c (span pre) k (λ b. record b { free = f }) n in
    record {
      before = at.before;
      front =
          Linked-frame c c' none first 0 pre at.before (some (span pre))
            (λ k lo hi. other k (omega arith)) at.front;
      header = record {
        magic = rw here at.header.magic;
        size = rw here at.header.size;
        free = rw here;
        previous = rw here at.header.previous;
      };
      back = rw here (
          Linked-frame c c' (some (span pre)) (c (span pre)).next (span pre + header_size + s.size)
            post last none (λ k lo hi. other k (omega arith)) at.back);
    }
