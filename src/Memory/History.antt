-- ===== src/Memory/History.antt =====
-- Sequences of calls of the allocator of kernel/mm/memory.c.
use os.Prelude.{
  ℕ, ◌-◌, ◌^◌, ◌≤◌, ◌<◌, ◌≡◌, ◌⊎◌, sym, ap, ◌∙◌, List, [], ◌∷◌, Option, none, some, Bool, true,
  false, if◌then◌else◌, arith, inl, inr, Bool-cases, Option-cases,
}
use mathlib.Core.Path.{subst}
use os.Memory.Heap.{Heap, memory_init}
use os.Memory.Alloc.{kmalloc}
use os.Memory.Free.{kfree}
use os.Memory.Fields.{kmalloc-first, kfree-first}
use os.Memory.Multiboot.{Bytes, boot_bytes}
use os.Memory.Layout.{Segment, Represents}
use os.Memory.Allocation.{first_fit, allocated}
use os.Memory.Allocation.Correct.{Allocates, round_up, kmalloc-Allocates, kmalloc_refused}
use os.Memory.Deallocation.{block_at, freed}
use os.Memory.Deallocation.Correct.{Frees, kfree-Frees}
use os.Memory.Accounting.{memory_init-Represents}

-- A call of a client, with any arguments.
pub data Call : Type 0 where
  malloc : (size : ℕ) → Call
  free : (pointer : Option ℕ) → Call

abbrev pub call : Call → Heap → Heap
call (malloc size) h = (kmalloc size h).0
call (free p) h = kfree p h

abbrev pub run : List Call → Heap → Heap
run [] h = h
run (c ∷ cs) h = run cs (call c h)

-- A size is a machine word.
abbrev pub IsWord : Call → Type 0
IsWord (malloc size) = size < 2 ^ 64
IsWord (free p) = Unit {0}

abbrev pub AllWords : List Call → Type 0
AllWords [] = Unit {0}
AllWords (c ∷ cs) = IsWord c × AllWords cs

-- The heap represents some layout, and has blocks.
abbrev pub IsHeap : Heap → Type 0
IsHeap h = (ss : List Segment) × Represents h ss × (h.first ≡ some 0)

size_cases : (size : ℕ) → ((size ≡ 0) ⊎ (2 ^ 64 - 16 < size)) ⊎ ((0 < size) × (size ≤ 2 ^ 64 - 16))
size_cases size = ground arith

malloc-IsHeap : (size : ℕ) (h : Heap) → size < 2 ^ 64 → IsHeap h → IsHeap (kmalloc size h).0
malloc-IsHeap size h word (ss, v, up) = elim (size_cases size) [
  | inl r ↦ subst IsHeap (sym (ap (λ x. x.0) (kmalloc_refused size h word (inl r)))) (ss, v, up)
  | inr r ↦
      let made = kmalloc-Allocates size ss v up r.0 r.1 in
      let start = kmalloc-first size h ∙ up in
      elim (Option-cases (first_fit (round_up size) ss)) [
        | inl n ↦ subst IsHeap (sym (rw (n, Allocates) at made).0) (ss, v, up)
        | inr k ↦ (allocated (round_up size) k.0, (rw (k.1, Allocates) at made).0, start)
      ]
]

-- The branch that a test chooses.
chosen : (A B : Type 0) {b : Bool} → b ≡ true → (if b then A else B) → A
chosen A B e t = subst (λ x. if x then A else B) e t

pub other : (A B : Type 0) {b : Bool} → b ≡ false → (if b then A else B) → B
other A B e t = subst (λ x. if x then A else B) e t

free-IsHeap : (p : Option ℕ) (h : Heap) → IsHeap h → IsHeap (kfree p h)
unfolding kfree
free-IsHeap none h is = is
free-IsHeap (some p) h (ss, v, up) =
    let after = kfree-Frees p ss v in
    let start = kfree-first (some p) h ∙ up in
    elim (Option-cases (block_at 0 p ss)) [
      | inl n ↦ subst IsHeap (sym (rw (n, Frees) at after)) (ss, v, up)
      | inr k ↦ elim (Bool-cases k.0.block.free) [
        | inl f ↦
            subst IsHeap
              (sym (
                chosen (kfree (some p) h ≡ h) (Represents (kfree (some p) h) (freed k.0)) f
                  (rw (k.1, Frees) at after)))
              (ss, v, up)
        | inr f ↦ (
          freed k.0,
          other (kfree (some p) h ≡ h) (Represents (kfree (some p) h) (freed k.0)) f
              (rw (k.1, Frees) at after),
          start,
        )
      ]
    ]

run-IsHeap : (cs : List Call) (h : Heap) → AllWords cs → IsHeap h → IsHeap (run cs h)
run-IsHeap [] h words is = is
run-IsHeap (malloc size ∷ cs) h words is =
    run-IsHeap cs (kmalloc size h).0 words.1 (malloc-IsHeap size h words.0 is)
run-IsHeap (free p ∷ cs) h words is = run-IsHeap cs (kfree p h) words.1 (free-IsHeap p h is)

-- From `memory_init` on, with boot information that says nothing of the memory's size or at least 640
-- bytes, every sequence of `kmalloc` calls, of any sizes, and `kfree` calls, of any pointers, double
-- frees and wrong ones included, leaves a heap that represents some layout: blocks that fill it, linked
-- in both directions, aligned, with no two free neighbours, and with counters that agree with them.
pub run-Represents :
    (m : Bytes) (address : ℕ) (h : Heap) (cs : List Call)
    → (boot_bytes m address ≡ 0) ⊎ (640 ≤ boot_bytes m address)
    → AllWords cs
    → (ss : List Segment) × Represents (run cs (memory_init m address h)) ss
run-Represents m address h cs enough words =
    let start = memory_init-Represents m address h enough in
    let (ss, v, up) = run-IsHeap cs (memory_init m address h) words (_, start.0, start.1) in (ss, v)
