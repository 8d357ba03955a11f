-- ===== src/Memory/Zeroed.antt =====
-- What `kcalloc` of kernel/mm/memory.c returns.
use os.Prelude.{
  ℕ, zero, suc, ◌+◌, ◌-◌, ◌*◌, ◌/◌, ◌^◌, ◌≤◌, ◌<◌, ◌≡◌, ◌⊎◌, refl, ◌∙◌, List, Option, none, some,
  false, not, ◌&&◌, ltb, leb, ◌==◌, arith, inl, inr, Bool-cases, add_size, mul_size, leb→le,
}
use native.Mathlib.Nat.{div-lt_iff_lt-mul}
use os.Memory.Layout.{Segment, Represents}
use os.Memory.Fresh.{kmalloc_fresh}
use os.Memory.Heap.{Heap}
use os.Memory.Alloc.{kmalloc}
use os.Memory.Resize.{write_byte, zero_bytes, cleared, kcalloc}

-- The loop writes only the bytes of its range.
pub zero_bytes_out :
    (n i result : ℕ) (m : ℕ → ℕ) (k : ℕ)
    → result + i + n ≤ 2 ^ 64
    → (k < result + i) ⊎ (result + i + n ≤ k)
    → zero_bytes n i result m k ≡ m k
unfolding zero_bytes
zero_bytes_out zero i result m k fits out = refl
zero_bytes_out (suc n) i result m k fits out =
    let here : add_size result i ≡ result + i = omega arith in
    zero_bytes_out n (i + 1) result (write_byte m (add_size result i) 0) k (omega arith)
      (ground arith)
    ∙ ground (arith, here)

-- In its range it writes all of them.
pub zero_bytes_in :
    (n i result : ℕ) (m : ℕ → ℕ) (k : ℕ)
    → result + i + n ≤ 2 ^ 64
    → result + i ≤ k
    → k < result + i + n
    → zero_bytes n i result m k ≡ 0
unfolding zero_bytes
zero_bytes_in zero i result m k fits lo hi = absurd (omega arith)
zero_bytes_in (suc n) i result m k fits lo hi =
    let here : add_size result i ≡ result + i = omega arith in
    let rest = write_byte m (add_size result i) 0 in
    elim (Bool-cases (k == (result + i))) [
      | inl e ↦
          zero_bytes_out n (i + 1) result rest k (omega arith) (inl (ground arith))
          ∙ ground (arith, here)
      | inr e ↦ zero_bytes_in n (i + 1) result rest k (omega arith) (ground arith) (omega arith)
    ]

-- The code's test, for a product that is a machine word and for one that is none.
overflow_test :
    (count size : ℕ) → 0 < size → ltb ((2 ^ 64 - 1) / size) count ≡ leb (2 ^ 64) (count * size)
overflow_test count size pos =
    let test = div-lt_iff_lt-mul {k = size} {x = 2 ^ 64 - 1} {y = count} pos in
    elim (Bool-cases (leb (2 ^ 64) (count * size))) [
      | inl e ↦ let lt = test.1 (omega (arith, leb→le (2 ^ 64) (count * size) e)) in ground arith
      | inr e ↦ ground (arith, test.0)
    ]

-- A product that is no machine word is refused: nothing changes and the result is null.
pub kcalloc_overflow :
    (count size : ℕ) (h : Heap)
    → 0 < size
    → 2 ^ 64 ≤ count * size
    → kcalloc count size h ≡ (h, none)
unfolding kcalloc
kcalloc_overflow count size h pos over =
    let test = overflow_test count size pos in ground (arith, test)

cleared_bytes :
    (n p k : ℕ) (r : Heap × Option ℕ)
    → r.1 ≡ some p
    → p + n ≤ 2 ^ 64
    → ((cleared n r).1 ≡ some p)
      × ((cleared n r).0 ≡ record r.0 { bytes = (cleared n r).0.bytes })
      × (p ≤ k → k < p + n → (cleared n r).0.bytes k ≡ 0)
      × ((k < p) ⊎ (p + n ≤ k) → (cleared n r).0.bytes k ≡ r.0.bytes k)
cleared_bytes n p k (h', none) got fits = absurd cc
cleared_bytes n p k (h', some q) got fits =
    let e : q ≡ p = cc in
    (
      got,
      refl,
      λ lo hi.
          zero_bytes_in n 0 q h'.bytes k (omega (arith, e)) (omega (arith, e)) (omega (arith, e)),
      λ out. zero_bytes_out n 0 q h'.bytes k (omega (arith, e)) (ground (arith, e)),
    )

-- Where `kmalloc` of the product of two numbers returns a pointer, `kcalloc` of the numbers returns it
-- too, with the same headers and counters; every byte of the memory is 0, and outside of it `kcalloc`
-- leaves the bytes that `kmalloc` leaves.
pub kcalloc_zeroed :
    (count size : ℕ) (ss : List Segment) {h : Heap} {f p : ℕ} (k : ℕ)
    → Represents h ss
    → h.first ≡ some f
    → 0 < count * size
    → count * size ≤ 2 ^ 64 - 16
    → (kmalloc (count * size) h).1 ≡ some p
    → ((kcalloc count size h).1 ≡ some p)
      × ((kcalloc count size h).0
          ≡ record (kmalloc (count * size) h).0 { bytes = (kcalloc count size h).0.bytes })
      × (p ≤ k → k < p + count * size → (kcalloc count size h).0.bytes k ≡ 0)
      × ((k < p) ⊎ (p + count * size ≤ k)
          → (kcalloc count size h).0.bytes k ≡ (kmalloc (count * size) h).0.bytes k)
unfolding kcalloc
kcalloc_zeroed count size ss {h} {f} {p} k v up pos fits got =
    let test = overflow_test count size (grind arith) in
    let inside = kmalloc_fresh (count * size) ss v up pos fits got in
    let bytes : mul_size count size ≡ count * size = omega arith in
    let passed : (not (size == 0) && ltb ((2 ^ 64 - 1) / size) count) ≡ false =
      ground (arith, test) in
    rw (passed, bytes)
      (cleared_bytes (count * size) p k (kmalloc (count * size) h) got
        (omega (arith, inside.1, v.small)))
