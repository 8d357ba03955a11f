-- ===== src/Memory/Tests.antt =====
-- The allocator of kernel/mm/memory.c on a heap of 992 bytes.
use os.Prelude.{
  ◌∙◌, ◌%◌, ◌++◌, length, ◌+◌, ◌-◌, ◌*◌, ◌^◌, ◌≤◌, ◌<◌, ◌≡◌, ◌⊎◌, refl, List, [], ◌∷◌, none, some,
  true, false, arith, inl, inr, ◌==◌, if◌then◌else◌,
}
use os.Memory.Heap.{Block, Heap, header_size, heap_init, memory_free_bytes, memory_used_bytes}
use os.Memory.Heap.{memory_init}
use os.Memory.Multiboot.{Bytes, boot_bytes}
use os.Memory.Multiboot.{multiboot_available_bytes}
use os.Memory.BootMap.{Tag, memory_map, available, sum_64, multiboot_available_bytes_lem}
use os.Memory.Alloc.{kmalloc}
use os.Memory.Free.{kfree}
use os.Memory.Resize.{kcalloc, krealloc}
use os.Memory.Layout.{Segment, Represents, free_total, span}
use os.Memory.Allocation.Correct.{Allocates, round_up, kmalloc-Allocates}
use os.Memory.Deallocation.Correct.{Frees, kfree-Frees}
use os.Memory.RoundTrip.{kfree-kmalloc}
use os.Memory.Fresh.{kmalloc_fresh}
use os.Memory.Accounting.{
  heap_size, heap_init-Represents, memory_init-Represents, memory_free-add-used,
}
use os.Memory.History.{Call, malloc, free, run, run-Represents}
use os.Memory.Zeroed.{kcalloc_overflow, kcalloc_zeroed}
use os.Memory.Fields.{kmalloc-first}
use os.Memory.Moved.{Keeps, krealloc-Keeps}

abbrev blank : Heap
blank = record {
  total_kib = 0;
  cells = λ a. record { magic = 0; size = 0; previous = none; next = none; free = false };
  bytes = λ a. 7;
  heap_bytes = 0;
  used = 0;
  allocations = 0;
  first = none;
}

abbrev start : Heap
start = heap_init 8000 blank

abbrev whole : List Segment
whole = record { size = 944; free = true } ∷ []

-- No boot information.
abbrev nothing : Bytes
nothing a = 0

no_bytes : boot_bytes nothing 0 ≡ 0
unfolding os.Memory.Multiboot.boot_bytes os.Memory.Multiboot.multiboot_available_bytes
    os.Memory.Multiboot.multiboot_basic_bytes
no_bytes = refl

memory_init-Represents_example :
    Represents
      (memory_init nothing 0 blank)
      (record { size = heap_size (boot_bytes nothing 0) - header_size; free = true } ∷ [])
    × ((memory_init nothing 0 blank).first ≡ some 0)
memory_init-Represents_example = memory_init-Represents nothing 0 blank (inl no_bytes)

start-Represents : Represents start whole
start-Represents = (heap_init-Represents 8000 blank (inr (omega arith))).0

start_first : start.first ≡ some 0
start_first = (heap_init-Represents 8000 blank (inr (omega arith))).1

first_pointer : (kmalloc 100 start).1 ≡ some 48
unfolding kmalloc heap_init os.Memory.Heap.align_up os.Memory.Alloc.find_fit os.Memory.Heap.modify
first_pointer = refl

kmalloc-Allocates_example : Allocates (round_up 100) whole start (kmalloc 100 start)
kmalloc-Allocates_example =
    kmalloc-Allocates 100 whole start-Represents start_first (omega arith) (omega arith)

kmalloc_fresh_example :
    (48 % 16 ≡ 0)
    × (48 + 100 ≤ start.heap_bytes)
    × ((pre post : List Segment) (t : Segment)
        → whole ≡ pre ++ (t ∷ post)
        → t.free ≡ false
        → (48 + 100 ≤ span pre + header_size) ⊎ (span pre + header_size + t.size ≤ 48))
kmalloc_fresh_example =
    kmalloc_fresh 100 whole start-Represents start_first (omega arith) (omega arith) first_pointer

kfree-kmalloc_example : Represents (kfree (some 48) (kmalloc 100 start).0) whole
kfree-kmalloc_example =
    kfree-kmalloc 100 whole start-Represents start_first (omega arith) (omega arith) first_pointer

-- The heap with one block in use in front of a free one.
abbrev taken : Heap
taken = (kmalloc 100 start).0

abbrev front : Segment
front = record { size = 112; free = false }

abbrev two : List Segment
two = front ∷ record { size = 784; free = true } ∷ []

taken-Represents : Represents taken two
unfolding round_up
taken-Represents = kmalloc-Allocates_example.0

taken_first : taken.first ≡ some 0
taken_first = kmalloc-first 100 start ∙ start_first

kfree-Frees_example : Frees 48 two taken (kfree (some 48) taken)
kfree-Frees_example = kfree-Frees 48 two taken-Represents

memory_free-add-used_example :
    (memory_free_bytes taken ≡ free_total two)
    × (memory_free_bytes taken + memory_used_bytes taken + header_size * length two
        ≡ taken.heap_bytes)
memory_free-add-used_example = memory_free-add-used two taken-Represents

-- A double free and a pointer out of the heap among other calls.
abbrev calls : List Call
calls = malloc 100 ∷ malloc 20 ∷ free (some 48) ∷ free (some 48) ∷ free (some 5000) ∷ malloc 0 ∷ []

run-Represents_example :
    (ss : List Segment) × Represents (run calls (memory_init nothing 0 blank)) ss
run-Represents_example =
    run-Represents nothing 0 blank calls (inl no_bytes)
      (omega arith, (omega arith, (tt, (tt, (tt, (omega arith, tt))))))

kcalloc_overflow_example : kcalloc (2 ^ 62) 4 start ≡ (start, none)
kcalloc_overflow_example = kcalloc_overflow (2 ^ 62) 4 start (omega arith) (omega arith)

kcalloc_zeroed_example :
    ((kcalloc 10 10 start).1 ≡ some 48)
    × ((kcalloc 10 10 start).0
        ≡ record (kmalloc (10 * 10) start).0 { bytes = (kcalloc 10 10 start).0.bytes })
    × (48 ≤ 60 → 60 < 48 + 10 * 10 → (kcalloc 10 10 start).0.bytes 60 ≡ 0)
    × ((60 < 48) ⊎ (48 + 10 * 10 ≤ 60)
        → (kcalloc 10 10 start).0.bytes 60 ≡ (kmalloc (10 * 10) start).0.bytes 60)
kcalloc_zeroed_example =
    kcalloc_zeroed 10 10 whole 60 start-Represents start_first (omega arith) (omega arith)
      first_pointer

moved_pointer : (krealloc (some (0 + 48)) 200 taken).1 ≡ some 208
unfolding krealloc kmalloc heap_init os.Memory.Free.find_block os.Memory.Heap.align_up
    os.Memory.Alloc.find_fit os.Memory.Heap.modify os.Memory.Alloc.occupy os.Memory.Alloc.split
moved_pointer = refl

krealloc-Keeps_example : Keeps (0 + 48) 208 112 taken (krealloc (some (0 + 48)) 200 taken).0
krealloc-Keeps_example =
    krealloc-Keeps 200 [] front (record { size = 784; free = true } ∷ []) taken-Represents
      taken_first refl (omega arith) (omega arith) moved_pointer

-- Boot information of 56 bytes at 4096: a map with one available entry of a mebibyte.
abbrev one_map : Bytes
one_map a =
    if a == 4096
    then 56
    else if a == 4104
    then 6
    else if a == 4108
    then 40
    else if a == 4112
    then 24
    else if a == 4130
    then 16
    else if a == 4136
    then 1
    else if a == 4148
    then 8
    else 0

abbrev one_tag : List Tag
one_tag = memory_map 24 (record { length = 1048576; kind = 1 } ∷ []) ∷ []

multiboot_available_bytes_lem_example :
    multiboot_available_bytes one_map 4096 ≡ sum_64 (available one_tag) 0
multiboot_available_bytes_lem_example =
    multiboot_available_bytes_lem one_map 4096 one_tag (omega arith) (omega arith) (omega arith) (
      omega arith,
      (refl, refl, refl, omega arith, omega arith, (refl, refl, tt)),
      (omega arith, refl),
    )
