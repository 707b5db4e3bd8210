-- ===== src/Bzip2.antt =====
-- src/bzip2: the stages of the block transform.
pub mod BitStream
pub mod Crc
pub mod Header
pub mod Huffman
pub mod HuffmanDecode
pub mod Mtf
pub mod Output
pub mod Rle1
pub mod Rle2
pub mod Symbols
pub mod Tests
pub mod HeaderTests
pub mod HuffmanTests
pub mod CrcTests
