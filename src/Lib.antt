-- ===== src/Lib.antt =====
-- orot, a compression library in C++: models of its codecs, and the theorems that make them correct.
--
-- The program: each codec below src/ turns a buffer into another and answers a length or a negative
-- code; src/api dispatches to the codecs, src/simd offers the routines that a processor may speed
-- up, with scalar forms as reference.
--
-- The files:
--   Base and the modules below it: tests, lists, results and bits that the other files share.
--   Simd/Match: scalar_match_length of src/simd/simd_detect.cpp in the branch of GCC and clang, a
--     pointer being the function of the bytes behind it; Simd/Ctz: __builtin_ctzll.
--   Simd/Checksum: scalar_crc32 and scalar_adler32 of the same file; Simd/Adler: what is shown of the
--     latter. Simd/HashInsert: scalar_hash_insert_bulk, and what is shown of it.
--   Lz4/Block: src/lz4/lz4_block.cpp but for the compressor: config_for_level, write_varint_extra,
--     read_varint_extra, varint_extra_size, emit_sequence, block_decompress_with_prefix (the loop is
--     decode_loop, one round decode_sequence, decode_offset and decode_match).
--   Lz4/Compress: lz4_block_compress. Tables is LZ4State, try_match the lambda of that name,
--     follow_chain the chain traversal, scan_step one round of the main loop.
--   Lz4/Copy, Length, Sequence, Match, Round, Scan, RoundTrip, Safety: what is shown of the block.
--   Lz4/XxHash: src/lz4/xxhash32.hpp, xxh32 and XXH32State; Lz4/HashStream: what is shown of it.
--   Lz4/Frame: src/lz4/lz4_frame.cpp; Lz4/FrameBlocks, FrameLoop, FrameRoundTrip, FrameSafety: what
--     is shown.
--   Lzw/BitStream, Compress, Decompress: src/lzw/lzw_block.cpp. BitWriter and BitReader are Writer
--     and Reader; both encoders are `encode`; the hash tables are functions, and the decoder's table
--     is a function from codes. Lzw/Periodic: what is shown of it.
--   Bzip2/Mtf: src/bzip2/mtf.hpp, MTFState being the list of its symbols.
--   Bzip2/Rle1: rle1_encode of src/bzip2/bzip2_compress.cpp, and phase 3 of decode_block of
--     src/bzip2/bzip2_decompress.cpp without its walk and checksum (expand). Bzip2/Rle2:
--     rle2_encode, and phase 1 of decode_block over the symbols that the Huffman decoder gives
--     (decode_symbols; a write behind the end of ll is `overruns`). Bzip2/Output: phase 3 with its
--     checksum, and what is shown of it. Bzip2/BitStream: BitWriter and BitReader of the same files.
--     Bzip2/Header: the block header, the calls of write_bits as a list of fields, and the reading
--     part of decode_block as parsers of the stream; next_length has one more fuel than there are
--     bits, of which each of its turns takes one. Bzip2/Crc: src/bzip2/bzip2_crc.hpp. The modules
--     below them: what is shown.
--   Bzip2/Huffman: build_codes and build_from_lengths of src/bzip2/bzip2_huffman.cpp, Bzip2/HuffmanDecode:
--     decode_sym, of which decode_sym_hot of bzip2_decompress.cpp is a copy. A write behind fast_table
--     is `none`. The modules below both: what is shown of them.
--   Bzip2/Symbols: the symbols that compress_block writes, and the tables and symbols that decode_block
--     reads, up to the one that ends the block; the modules below it: what is shown.
--   Memory/Pool: src/memory/pool_allocator.hpp, a client's calls and writes being the steps of Reach;
--     Memory/Arena: src/memory/arena.hpp. Pool/Disjoint and Arena/Stacked: what is shown of them.
--   Parallel/Queue: src/parallel/sync_queue.hpp, its two threads as a step relation;
--     Parallel/Queue/Invariant, Queue/Fifo: what is shown of it. Parallel/Pool: src/parallel/thread_pool.hpp, the
--     owner and the workers as step relations; Parallel/Family, Pool/Invariant, Pool/Wake and
--     Pool/Progress: what is shown of it. Parallel/Compressor: src/parallel/parallel_compressor.cpp over the interface
--     BlockEncoder, which stands for src/deflate; Compressor/Join and InTurn: what is shown of it.
--   Deflate/BitWriter, BitReader: src/deflate/bit_writer.hpp and bit_reader.hpp.
--   Formats/Gzip: src/formats/gzip_wrapper.cpp over the interface RawCodec; Formats/GzipRoundTrip:
--     what is shown of it. Formats/RawDeflate: src/formats/raw_deflate.cpp, which provides that
--     interface, over the interface Engine, which stands for src/compress and src/decompress.
--     Formats/Zlib: src/formats/zlib_wrapper.cpp; StoredBlocks, ZlibStored, ZlibAccepts and
--     ZlibRoundTrip: what is shown of it. Nothing is assumed of the code behind an interface.
--   Tests below each folder: runs on small inputs, and the theorems at concrete inputs.
--
-- Conventions: a byte is a number below 256, a buffer a list; a write pointer is the output so far
-- with the room that it may fill, so that a check of the capacity is a test on its length. A
-- negative result is `fails`; `stuck` is a loop without fuel, which no code path of the source is, or,
-- in the LZ4 block decoder, a sum of a length that passes an int, whose value is undefined.
-- Words of 32 bits wrap by % 2 ^ 32. The loops on fuel start with the length of the input, or one
-- more, and each round takes at least one byte of it.
--
-- Not modelled: overflow of an int in lz4f_compress_bound; failing allocations; big-endian hosts; the
-- liblz4 backend, which the build leaves off; the vector forms in src/simd, and every codec that is
-- not named above.
pub mod Base
pub mod Simd
pub mod Lz4
pub mod Lzw
pub mod Bzip2
pub mod Deflate
pub mod Formats
pub mod Parallel
pub mod Memory
