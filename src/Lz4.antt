-- ===== src/Lz4.antt =====
-- src/lz4: the block codec, its frames and their checksum.
pub mod Block
pub mod Copy
pub mod Length
pub mod Sequence
pub mod Compress
pub mod Match
pub mod Round
pub mod Scan
pub mod RoundTrip
pub mod Safety
pub mod XxHash
pub mod HashStream
pub mod Frame
pub mod FrameBlocks
pub mod FrameLoop
pub mod FrameRoundTrip
pub mod FrameSafety
pub mod Tests
