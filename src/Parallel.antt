-- ===== src/Parallel.antt =====
-- src/parallel: the ring queue, the thread pool, and the block compressor over it.
pub mod Queue
pub mod Family
pub mod Pool
pub mod Compressor
pub mod CompressorTests
pub mod Tests
