-- ===== src/Formats.antt =====
-- src/formats: the containers around a raw deflate stream.
pub mod Gzip
pub mod GzipRoundTrip
pub mod RawDeflate
pub mod Zlib
pub mod StoredBlocks
pub mod ZlibStored
pub mod ZlibAccepts
pub mod ZlibRoundTrip
pub mod ZlibTests
pub mod Tests
