-- ===== src/Memory/Accounting.antt =====
-- The start of the heap of kernel/mm/memory.c, and what its counters say.
use os.Prelude.{
  ℕ, zero, suc, ◌+◌, ◌-◌, ◌*◌, ◌/◌, ◌%◌, ◌^◌, ◌≤◌, ◌<◌, ◌≡◌, ◌⊎◌, refl, ◌∙◌, List, [], ◌∷◌, Option,
  none, some, Bool, true, false, not, ◌&&◌, if◌then◌else◌, ltb, leb, ◌==◌, length, arith, add_size,
}
use os.Memory.Heap.{
  Cells, Heap, header_size, min_payload, heap_max_bytes, alignment, modify, fuel, heap_init,
  memory_init, free_bytes_from, memory_free_bytes, memory_used_bytes,
}
use os.Memory.Multiboot.{Bytes, boot_bytes}
use os.Memory.Layout.{Segment, span, Linked, Represents, free_total, length-le-span}
use os.Memory.Layout.Sums.{span-sums}

-- The size that the heap gets.
abbrev pub limited : ℕ → ℕ
limited available =
    if not (available == 0) && ltb (available / 8) heap_max_bytes
    then available / 8
    else heap_max_bytes

abbrev pub heap_size : ℕ → ℕ
heap_size available = limited available / alignment * alignment

heap_size_large :
    (available : ℕ)
    → (available ≡ 0) ⊎ (640 ≤ available)
    → (80 ≤ heap_size available)
      × (heap_size available ≤ heap_max_bytes)
      × (heap_size available % 16 ≡ 0)
heap_size_large available h = ground arith

-- With no boot map, or at least 640 bytes of memory in it, the heap starts as one free block that
-- fills it.
pub heap_init-Represents :
    (available : ℕ) (h : Heap)
    → (available ≡ 0) ⊎ (640 ≤ available)
    → Represents
        (heap_init available h)
        (record { size = heap_size available - header_size; free = true } ∷ [])
      × ((heap_init available h).first ≡ some 0)
unfolding heap_init modify
heap_init-Represents available h enough =
    let size = heap_size_large available enough in
    let test : leb (heap_size available) (header_size + min_payload) ≡ false = ground arith in
    rw test (
      record {
        last = some 0;
        linked = (
          refl,
          record { magic = refl; size = refl; free = refl; previous = refl },
          (refl, refl),
        );
        fills = omega (arith, size);
        small = size.1;
        aligned = ((omega (arith, size), omega (arith, size)), tt);
        coalesced = tt;
        used_sum = refl;
        used_count = refl;
      },
      refl,
    )

-- If the boot information says nothing of the memory's size, or at least 640 bytes, `memory_init` makes
-- the heap one free block that fills it.
pub memory_init-Represents :
    (m : Bytes) (address : ℕ) (h : Heap)
    → (boot_bytes m address ≡ 0) ⊎ (640 ≤ boot_bytes m address)
    → Represents
        (memory_init m address h)
        (record { size = heap_size (boot_bytes m address) - header_size; free = true } ∷ [])
      × ((memory_init m address h).first ≡ some 0)
unfolding memory_init
memory_init-Represents m address h enough = heap_init-Represents (boot_bytes m address) h enough

-- A step of a sum that is kept in `g`'s argument.
counted :
    (b : Bool) (g : ℕ → ℕ) (sum n t : ℕ)
    → g (sum + n) ≡ sum + n + t
    → g sum ≡ sum + t
    → g (if b then sum + n else sum) ≡ sum + ((if b then n else 0) + t)
counted true g sum n t h k = h ∙ omega arith
counted false g sum n t h k = k ∙ omega arith

-- The loop adds the free payloads up.
free_bytes_from_lem :
    (f : ℕ) (c : Cells) (p cur : Option ℕ) (base sum : ℕ) (ss : List Segment) (q : Option ℕ)
    → Linked c p cur base ss q none
    → length ss < f
    → sum + span ss < 2 ^ 64
    → free_bytes_from f c cur sum ≡ sum + free_total ss
unfolding free_bytes_from
free_bytes_from_lem zero c p cur base sum ss q h lt small = absurd (omega arith)
free_bytes_from_lem (suc f) c p cur base sum [] q h lt small = rw h.1 (omega arith)
free_bytes_from_lem (suc f) c p cur base sum (s ∷ ss) q h lt small =
    let next = (c base).next in
    let after = base + header_size + s.size in
    let with =
      free_bytes_from_lem f c (some base) next after (sum + s.size) ss q h.2 (omega arith)
        (omega arith) in
    let without =
      free_bytes_from_lem f c (some base) next after sum ss q h.2 (omega arith) (omega arith) in
    let exact : add_size sum s.size ≡ sum + s.size = omega arith in
    rw (h.0, free_bytes_from, h.1.magic, h.1.free, h.1.size, exact)
      (counted s.free (free_bytes_from f c next) sum s.size (free_total ss) with without)

-- On a represented heap `memory_free_bytes` is the sum of the free payloads, and together with
-- `memory_used_bytes` and a header for each block it makes up the heap.
pub memory_free-add-used :
    {h : Heap} (ss : List Segment)
    → Represents h ss
    → (memory_free_bytes h ≡ free_total ss)
      × (memory_free_bytes h + memory_used_bytes h + header_size * length ss ≡ h.heap_bytes)
unfolding memory_free_bytes memory_used_bytes
memory_free-add-used {h} ss v =
    let enough : length ss < fuel h = omega (arith, length-le-span ss, v.fills) in
    let sum : free_bytes_from (fuel h) h.cells h.first 0 ≡ free_total ss =
      free_bytes_from_lem (fuel h) h.cells none h.first 0 0 ss v.last v.linked enough
        (omega (arith, v.fills, v.small))
      ∙ omega arith in
    (sum, omega (arith, sum, v.used_sum, v.fills, span-sums ss))
