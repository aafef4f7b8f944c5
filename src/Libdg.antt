-- ===== src/Libdg.antt =====
-- src/libdg/libdgconfig.c: the checks on configuration values, and the reader of the file.
pub mod Text
pub mod Decimal
pub mod Checks
pub mod Solaris
pub mod Entry
pub mod Values
pub mod Reader
