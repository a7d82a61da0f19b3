-- ===== src/Kernel.antt =====
-- The kernel, kernel/.
pub mod Backtrace
pub mod Syscall
pub mod Process
pub mod Trap
pub mod Elf
pub mod Symbols
pub mod Machine
pub mod Startup
pub mod Boot
