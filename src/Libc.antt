-- ===== src/Libc.antt =====
-- Routines of the C library, usr/src/libc/gen.
pub mod Str
pub mod Convert
pub mod Crypt
pub mod Time
pub mod Sort
