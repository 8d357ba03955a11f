-- ===== src/Memory/Heap.antt =====
-- The types and static variables of kernel/mm/memory.c.
-- An address is its distance from the array `heap` at 64 bits, so that a pointer outside the array is a
-- number that is not below `heap_bytes`; a null pointer is `none`. `cells` are the headers, by the
-- address that they are written at, and `bytes` are the contents of the payloads. The two are
-- apart: a client that writes outside its payload, over a header, is not modelled.
use os.Prelude.{
  ℕ, zero, suc, ◌+◌, ◌-◌, ◌*◌, ◌/◌, ◌^◌, ◌≡◌, Option, none, some, Bool, true, false, not, ◌&&◌,
  if◌then◌else◌, ltb, leb, ◌==◌, add_size, arith,
}
use os.Memory.Multiboot.{Bytes, boot_bytes}

abbrev pub heap_max_bytes : ℕ
heap_max_bytes = 2 * 1024 * 1024

abbrev pub block_magic : ℕ
block_magic = 0x4f5336344d454d31

abbrev pub alignment : ℕ
alignment = 16

abbrev pub min_payload : ℕ
min_payload = 16

-- `sizeof(block_t)`: 36 bytes of fields, aligned to 16.
abbrev pub header_size : ℕ
header_size = 48

-- `block_t`
pub record Block : Type 0 where
  pub magic : ℕ
  pub size : ℕ
  pub previous : Option ℕ
  pub next : Option ℕ
  pub free : Bool

abbrev pub Cells : Type 0
Cells = ℕ → Block

-- The static variables.
pub record Heap : Type 0 where
  pub total_kib : ℕ
  pub cells : Cells
  pub bytes : ℕ → ℕ
  pub heap_bytes : ℕ
  pub used : ℕ
  pub allocations : ℕ
  pub first : Option ℕ

-- `!pointer`
abbrev pub is_null : Option ℕ → Bool
is_null none = true
is_null (some a) = false

-- A write through a pointer to the header at `a`.
unfoldable pub modify : Cells → ℕ → (Block → Block) → Cells
modify c a f k = if k == a then f (c k) else c k

-- The same through a pointer that may be null.
abbrev pub modify? : Cells → Option ℕ → (Block → Block) → Cells
modify? c none f = c
modify? c (some a) f = modify c a f

pub modify_self : (c : Cells) (a : ℕ) (f : Block → Block) → modify c a f a ≡ f (c a)
unfolding modify
modify_self c a f = ground arith

pub modify_ne : (c : Cells) (a k : ℕ) (f : Block → Block) → (k ≡ a → ⊥) → modify c a f k ≡ c k
unfolding modify
modify_ne c a k f n = ground arith

-- 0 stands for a size that cannot be rounded up. `& ~15` is the multiple of 16 below.
unfoldable pub align_up : ℕ → ℕ
align_up value =
    if ltb (2 ^ 64 - 1 - (alignment - 1)) value
    then 0
    else add_size value (alignment - 1) / alignment * alignment

-- The walks along the list take fuel: a list without a cycle has no more blocks than fit in the heap.
abbrev pub fuel : Heap → ℕ
fuel h = h.heap_bytes / header_size + 1

-- `memory_init` behind the scan of the boot map, which gives `available`.
unfoldable pub heap_init : ℕ → Heap → Heap
heap_init available h =
    let kib = available / 1024 in
    let limited =
      if not (available == 0) && ltb (available / 8) heap_max_bytes
      then available / 8
      else heap_max_bytes in
    let size = limited / alignment * alignment in
    let empty = record h {
      total_kib = kib;
      heap_bytes = size;
      used = 0;
      allocations = 0;
      first = none;
    } in
    let whole = record empty {
      first = some 0;
      cells = modify h.cells 0 (λ b. record {
        magic = block_magic;
        size = size - header_size;
        previous = none;
        next = none;
        free = true;
      });
    } in
    if leb size (header_size + min_payload) then empty else whole

-- `m` is the memory, and `address` that of the boot information; a null pointer is 0.
unfoldable pub memory_init : Bytes → ℕ → Heap → Heap
memory_init m address h = heap_init (boot_bytes m address) h

-- The loop of `memory_free_bytes`; a damaged header makes the answer 0.
unfoldable pub free_bytes_from : ℕ → Cells → Option ℕ → ℕ → ℕ
free_bytes_from zero c cur sum = sum
free_bytes_from (suc f) c none sum = sum
free_bytes_from (suc f) c (some a) sum =
    let rest =
      free_bytes_from f c (c a).next (if (c a).free then add_size sum (c a).size else sum) in
    if (c a).magic == block_magic then rest else 0

unfoldable pub memory_free_bytes : Heap → ℕ
memory_free_bytes h = free_bytes_from (fuel h) h.cells h.first 0

unfoldable memory_total_kib : Heap → ℕ
memory_total_kib h = h.total_kib

unfoldable pub memory_used_bytes : Heap → ℕ
memory_used_bytes h = h.used

unfoldable pub memory_heap_bytes : Heap → ℕ
memory_heap_bytes h = if ltb header_size h.heap_bytes then h.heap_bytes - header_size else 0

unfoldable memory_allocation_count : Heap → ℕ
memory_allocation_count h = h.allocations
