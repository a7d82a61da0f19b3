-- ===== src/Util.antt =====
-- The kernel's C library, util/: formatted output and strings.
pub mod Print
pub mod Strings
pub mod Copy
