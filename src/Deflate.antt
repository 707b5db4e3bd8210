-- ===== src/Deflate.antt =====
-- src/deflate: the bit streams.
pub mod BitWriter
pub mod BitReader
pub mod Tests
