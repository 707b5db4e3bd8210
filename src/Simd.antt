-- ===== src/Simd.antt =====
-- src/simd: the scalar routines that the dispatch table installs when no vector unit is compiled in.
pub mod Ctz
pub mod Match
pub mod Checksum
pub mod Adler
pub mod HashInsert
pub mod Tests
