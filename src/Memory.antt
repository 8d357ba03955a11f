-- ===== src/Memory.antt =====
-- The kernel heap of kernel/mm/memory.c: a doubly linked list of block headers over one array.
pub mod Multiboot
pub mod BootMap
pub mod Heap
pub mod Alloc
pub mod Free
pub mod Resize
pub mod Layout
pub mod Allocation
pub mod Deallocation
pub mod RoundTrip
pub mod Fresh
pub mod Accounting
pub mod History
pub mod Zeroed
pub mod Fields
pub mod Moved
mod Tests
