-- ===== src/Lib.antt =====
-- OS64, a 64-bit operating system kernel in C: a model of its heap, its services, its message log,
-- its clock and its PS/2 driver, and of Mini64, the system that repairs its disk.
--
-- The kernel boots into `memory_init`, which sets up one heap that all of its parts allocate from.
-- A table of ten services stands for the parts of the kernel: the boot starts them in a fixed
-- order, each polls its part, and a service starts only if the one it depends on is ready. One of
-- them is the message log, which every part can submit to and which the panic screen and the shell
-- print. The PS/2 driver and the real-time clock talk to their hardware by port accesses: the
-- kernel's input loop polls the first, and the clock service reads the second.
--
-- Files:
-- Prelude passes the library's names on and declares what the parts share: Boolean tests on
--   numbers, lists, C strings (CString), `int` values (Int) and unsigned arithmetic with its
--   wrap-around (Words).
-- Memory is kernel/mm/memory.c. Multiboot has the scan of the boot map and BootMap what that map
--   says, Heap has the types, the static variables, `memory_init` and the counters; Alloc has
--   `kmalloc`, Free has `kfree`, Resize has `kcalloc` and `krealloc`. Layout is the abstract view:
--   the blocks as a list of sizes with a mark for those that are free, and when a heap represents
--   such a list. Allocation and Deallocation say what `kmalloc` and `kfree` do to that list and
--   prove it of the code. Fresh, RoundTrip, Zeroed, Moved, Accounting and History build on these
--   two.
-- Service is kernel/core/service.c with `start_boot_services` of kernel/core/kernel.c. Table has
--   the types, the constant table and the lookups, Poll has `poll_one` and `service_poll_all`,
--   Control has `service_start`, `service_stop` and `service_wait_ready`, Query has the functions
--   that read a field, Boot has the order of the boot. Waiting and Validity are about these
--   operations, Boot/Healthy and Boot/Plan about the boot.
-- Log is kernel/drivers/display/log.c. Log/Dump has `log_dump`; Ring and History are proofs.
-- Ports is kernel/include/os64/io.h: accesses to ports, with the hardware as a parameter.
-- Ps2 is kernel/drivers/keyboard/ps2.c. Ps2 itself has the static variables and the waits,
--   Controller the starts of the devices and the reads of the keyboard, Mouse `ps2_mouse_poll`.
--   Protocol and Protocol/Safe are about the order of the accesses and the flags, Packets about the
--   mouse, Bounds about the number of accesses.
-- Keyboard is kernel/drivers/keyboard/keyboard.c, and Keyboard/Modifiers is about its modifier
--   keys.
-- Rtc is kernel/drivers/rtc/rtc.c. Encode is about the formats of the registers, Stable about the
--   two snapshots.
-- Timed is the calendar of kernel/core/timed.c, and Timed/Calendar is about it.
-- Mini64 is mini64/kernel.c. Keyboard has `kbd_get`, Line the variables of `readline` and the
--   history, with Line/Keys, Line/Complete and Line/Read for the keys; Line/Text and Line/Entered
--   are about the text, Copies, Bounds and Within about the buffer, Recall about the history. Print
--   has the numbers. Disk has the drive as an interface and the calls over it, Ata fills it by port
--   accesses. Fat has the table, Fat/Format, Fat/Entries and Fat/Store the volume and its files,
--   Recover `do_recover`, Erase `erase_sectors`, Modules the boot information, Console the text
--   screen, Frame the framebuffer, with its font as a parameter. Disk/Calls has the rules for
--   calls, Fat/Bytes, Table, Search and Allocate are about the table, Mounted, Mount and Fresh
--   about a format, View, Chain, Entry and Stored about a file, Erase/Erased about an erasure,
--   Console/Page about the screen, Frame/Inside and Frame/Below about the framebuffer, Ata/Bounds
--   and Ata/Pending about the port accesses. The laws of a drive that keeps what is written are for
--   bytes and for the 2^28 sectors that `disk_select` can name; Ata/Device has a disk behind the
--   ports as an example of hardware, and Ata/Kept is about `disk_read` and `disk_write` on it.
--
-- State is passed on explicitly: an operation takes the static variables of its file as a record
-- and returns them. A pointer into the heap is the distance from the array's start, a null pointer
-- is `none`. The headers of the blocks and the bytes between them are two functions of the address,
-- so that the model does not see a byte that lies in a header. A `size_t` is a native number with
-- the wrap-around of 64 bits written out. What another part of the kernel answers is an argument:
-- the time for the log, a `World` for the services, so that a theorem holds for all answers; calls
-- that only have an effect on other parts are recorded in order. What a port gives is a function of
-- all accesses before, so that a theorem holds for any hardware.
--
-- Fuel: the walks along the block list take the heap's size divided by a header's size, plus one; a
-- list that represents a layout has fewer blocks, because each takes up at least a header, and the
-- theorems use this bound. The loops over the boot map take one round for each 8 bytes of it, and
-- 2^32 rounds for the entries of a tag. The loops of the calendar take one round for each 365 days
-- and twelve for the months of a year. The loops of `log_dump` and `service_wait_ready` are
-- structural in their own bound, and so are the waits for hardware, which the code gives up after
-- 100000 or 1000000 rounds. The copies of a text that a NUL ends take 128 rounds, the length of
-- their row. A file takes a round for each 512 bytes and one more; the chain of an old file takes a
-- round for each cluster, as in the code.
--
-- Not modelled: the command loop of mini64/kernel.c, and what the answer to a question prints; a
-- division by a `sectors_per_cluster` of 0; a client that writes over the headers; the display, the
-- file systems, the network, the other drivers and the programs, which the services call through
-- their answers only. In the display of a log entry the calls of the display are values. Pointers
-- through which a driver's function gives its results are not null.
pub mod Prelude
pub mod Log
pub mod Service
pub mod Memory
pub mod Ports
pub mod Ps2
pub mod Keyboard
pub mod Rtc
pub mod Timed
pub mod Mini64
