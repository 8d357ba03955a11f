-- ===== src/Mini64.antt =====
-- The rescue system of mini64/kernel.c, which starts instead of the kernel after a panic.
pub mod Keyboard
pub mod Line
pub mod Console
pub mod Frame
pub mod Print
pub mod Disk
pub mod Ata
pub mod Fat
pub mod Recover
pub mod Erase
pub mod Modules
mod Tests
