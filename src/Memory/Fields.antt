-- ===== src/Memory/Fields.antt =====
-- What `kmalloc` and `kfree` of kernel/mm/memory.c leave alone: where the list starts, and the contents
-- of the payloads.
use os.Prelude.{
  ℕ, ◌≡◌, refl, Option, none, some, ◌||◌, ◌==◌, arith, inl, inr, Bool-cases, Option-cases,
}
use os.Memory.Heap.{Heap, fuel, is_null, align_up}
use os.Memory.Alloc.{occupy, find_fit, allocate, kmalloc}
use os.Memory.Free.{release, find_block, kfree}

allocate-first : (wanted : ℕ) (h : Heap) → (allocate wanted h).0.first ≡ h.first
unfolding occupy
allocate-first wanted h = elim (Option-cases (find_fit (fuel h) h.cells h.first wanted)) [
  | inl n ↦ rw (n, allocate)
  | inr k ↦ rw (k.1, allocate)
]

pub kmalloc-first : (size : ℕ) (h : Heap) → (kmalloc size h).0.first ≡ h.first
unfolding kmalloc
kmalloc-first size h = elim (Bool-cases (size == 0 || is_null h.first)) [
  | inl e ↦ rw e
  | inr e ↦ elim (Bool-cases (align_up size == 0)) [
    | inl z ↦ rw (e, kmalloc, z)
    | inr z ↦ rw (e, kmalloc, z) (allocate-first (align_up size) h)
  ]
]

pub kfree-first : (p : Option ℕ) (h : Heap) → (kfree p h).first ≡ h.first
unfolding kfree release
kfree-first none h = refl
kfree-first (some p) h = elim (Option-cases (find_block (fuel h) h.cells h.first p)) [
  | inl n ↦ rw n (ground arith)
  | inr k ↦ rw k.1 (ground arith)
]

allocate-bytes : (wanted : ℕ) (h : Heap) → (allocate wanted h).0.bytes ≡ h.bytes
unfolding occupy
allocate-bytes wanted h = elim (Option-cases (find_fit (fuel h) h.cells h.first wanted)) [
  | inl n ↦ rw (n, allocate)
  | inr k ↦ rw (k.1, allocate)
]

pub kmalloc-bytes : (size : ℕ) (h : Heap) → (kmalloc size h).0.bytes ≡ h.bytes
unfolding kmalloc
kmalloc-bytes size h = elim (Bool-cases (size == 0 || is_null h.first)) [
  | inl e ↦ rw e
  | inr e ↦ elim (Bool-cases (align_up size == 0)) [
    | inl z ↦ rw (e, kmalloc, z)
    | inr z ↦ rw (e, kmalloc, z) (allocate-bytes (align_up size) h)
  ]
]

pub kfree-bytes : (p : Option ℕ) (h : Heap) → (kfree p h).bytes ≡ h.bytes
unfolding kfree release
kfree-bytes none h = refl
kfree-bytes (some p) h = elim (Option-cases (find_block (fuel h) h.cells h.first p)) [
  | inl n ↦ rw n (ground arith)
  | inr k ↦ rw k.1 (ground arith)
]
