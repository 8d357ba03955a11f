-- ===== src/Memory/Resize.antt =====
-- `kcalloc` and `krealloc` of kernel/mm/memory.c.
use os.Prelude.{
  ℕ, zero, suc, ◌+◌, ◌-◌, ◌/◌, ◌^◌, Option, none, some, not, ◌&&◌, ◌||◌, if◌then◌else◌, ltb, leb,
  ◌==◌, add_size, mul_size,
}
use os.Memory.Heap.{Heap, block_magic, fuel}
use os.Memory.Alloc.{kmalloc}
use os.Memory.Free.{find_block, kfree}

-- `memory[a] = v`
abbrev pub write_byte : (ℕ → ℕ) → ℕ → ℕ → ℕ → ℕ
write_byte m a v k = if k == a then v else m k

-- `for (i = 0; i < n; i++) result[i] = 0;`, `n` rounds from index `i` on.
unfoldable pub zero_bytes : ℕ → ℕ → ℕ → (ℕ → ℕ) → ℕ → ℕ
zero_bytes zero i result m = m
zero_bytes (suc n) i result m = zero_bytes n (i + 1) result (write_byte m (add_size result i) 0)

-- `for (i = 0; i < n; i++) to[i] = from[i];`
unfoldable pub copy_bytes : ℕ → ℕ → ℕ → ℕ → (ℕ → ℕ) → ℕ → ℕ
copy_bytes zero i to from m = m
copy_bytes (suc n) i to from m =
    copy_bytes n (i + 1) to from (write_byte m (add_size to i) (m (add_size from i)))

-- The last part of `kcalloc`, with what `kmalloc` gives. The headers that `kmalloc` writes stand in `cells`,
-- apart from the bytes of the memory that it gives out.
abbrev pub cleared : ℕ → Heap × Option ℕ → Heap × Option ℕ
cleared bytes (h', none) = (h', none)
cleared bytes (h', some p) = (record h' { bytes = zero_bytes bytes 0 p h'.bytes }, some p)

unfoldable pub kcalloc : ℕ → ℕ → Heap → Heap × Option ℕ
kcalloc count size h =
    let bytes = mul_size count size in
    if not (size == 0) && ltb ((2 ^ 64 - 1) / size) count
    then (h, none)
    else cleared bytes (kmalloc bytes h)

-- The last part of `krealloc`, with what `kmalloc` gives: the contents of the block `a`, whose pointer
-- is `p`, go to the new one.
abbrev pub moved : ℕ → ℕ → Heap × Option ℕ → Heap × Option ℕ
moved p a (h', none) = (h', none)
moved p a (h', some q) =
    (kfree (some p) (record h' { bytes = copy_bytes (h'.cells a).size 0 q p h'.bytes }), some q)

unfoldable pub krealloc : Option ℕ → ℕ → Heap → Heap × Option ℕ
krealloc none size h = kmalloc size h
krealloc (some p) size h =
    if size == 0 then (kfree (some p) h, none) else elim (find_block (fuel h) h.cells h.first p) [
      | none ↦ (h, none)
      | some a ↦
          if (h.cells a).free || not ((h.cells a).magic == block_magic)
          then (h, none)
          else if leb size (h.cells a).size
          then (h, some p)
          else moved p a (kmalloc size h)
    ]
