-- ===== src/Lzw.antt =====
-- src/lzw/lzw_block.cpp: bit streams, the compressor and the decompressor.
pub mod BitStream
pub mod Compress
pub mod Decompress
pub mod Periodic
pub mod Tests
