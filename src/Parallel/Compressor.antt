-- ===== src/Parallel/Compressor.antt =====
-- src/parallel/parallel_compressor.cpp. A block is compressed by a task of the pool, which writes its
-- own slot; the encoder of the blocks is an interface.
pub mod Join
pub mod InTurn
use orot.Base.{
  ℕ, zero, suc, ◌+◌, ◌-◌, ◌*◌, ◌/◌, ◌%◌, ◌^◌, Bool, List, [], ◌∷◌, ◌++◌, Option, none, some, length,
  take, drop, min, ltb, leb, ◌==◌, if◌then◌else◌, update,
}
use orot.Simd.Checksum.{scalar_crc32, scalar_adler32}
use orot.Formats.Gzip.{le32}
use orot.Formats.Zlib.{be32}

-- deflate_format
pub data Format : Type 0 where
  raw zlib gzip : Format

-- lz77_compress of a block at a level, BitWriter with its capacity, encode_block (the flag is that of
-- the last block), and the bytes that the writer then holds.
pub record BlockEncoder : Type 1 where
  pub Tokens : Type 0
  pub no_tokens : Tokens
  pub lz77_compress : ℕ → List ℕ → Tokens
  pub BitWriter : Type 0
  pub new_writer : ℕ → BitWriter
  pub encode_block : ℕ → Tokens → List ℕ → BitWriter → Bool → BitWriter
  pub written : BitWriter → List ℕ

unfoldable pub default_block_size : ℕ → ℕ
default_block_size level = if leb level 3 then 131072 else if leb level 6 then 524288 else 1048576

-- The fields of the object that compress reads; block_size is the constructor's argument.
pub record Settings : Type 0 where
  pub level : ℕ
  pub format : Format
  pub block_size : ℕ

unfoldable pub new_settings : ℕ → Format → ℕ → Settings
new_settings level format block_size = record {
  level = level;
  format = format;
  block_size = if ltb 0 block_size then block_size else default_block_size level;
}

unfoldable pub format_room : Format → ℕ
format_room raw = 0
format_room zlib = 6
format_room gzip = 18

unfoldable pub deflate_compress_bound_internal : Format → ℕ → ℕ
deflate_compress_bound_internal format n =
    n + n / 2 ^ 12 + n / 2 ^ 14 + n / 2 ^ 25 + 13 + format_room format

unfoldable pub count_blocks : ℕ → ℕ → ℕ
count_blocks block_size src_len =
    if ltb 0 src_len then (src_len + block_size - 1) / block_size else 1

-- The i-th block.
unfoldable pub block_at : ℕ → List ℕ → ℕ → List ℕ
block_at block_size src i =
    take (min block_size (length src - i * block_size)) (drop (i * block_size) src)

-- The header, and the least capacity that is asked for before it is written.
unfoldable pub format_header : Format → List ℕ
format_header raw = []
format_header zlib = 0x78 ∷ 0x9C ∷ []
format_header gzip = 0x1F ∷ 0x8B ∷ 8 ∷ 0 ∷ 0 ∷ 0 ∷ 0 ∷ 0 ∷ 0 ∷ 255 ∷ []

unfoldable pub header_room : Format → ℕ
header_room raw = 0
header_room zlib = 6
header_room gzip = 10

unfoldable pub trailer_size : Format → ℕ
trailer_size raw = 0
trailer_size zlib = 4
trailer_size gzip = 8

unfoldable pub format_trailer : Format → List ℕ → List ℕ
format_trailer raw src = []
format_trailer zlib src = be32 (scalar_adler32 1 src)
format_trailer gzip src = le32 (scalar_crc32 0 src) ++ le32 (length src % 2 ^ 32)

module _ (encoder : BlockEncoder) where
  -- The tasks in the order in which the workers end them; each fills the slot of its block.
  unfoldable pub run_tasks : Settings → List ℕ → List ℕ → (ℕ → encoder.Tokens) → ℕ → encoder.Tokens
  run_tasks settings src [] slots = slots
  run_tasks settings src (i ∷ order) slots =
      let tokens = encoder.lz77_compress settings.level (block_at settings.block_size src i) in
      run_tasks settings src order (update slots i tokens)

  -- The blocks from i on, n of them, one after the other into one writer.
  unfoldable pub encode_blocks :
      Settings → List ℕ → (ℕ → encoder.Tokens) → ℕ → ℕ → encoder.BitWriter → encoder.BitWriter
  encode_blocks settings src slots zero i bw = bw
  encode_blocks settings src slots (suc n) i bw = encode_blocks settings src slots n (suc i) (
      encoder.encode_block settings.level (slots i) (block_at settings.block_size src i) bw
        (n == 0))

  -- Behind the tests on the capacity; `order` is that of the tasks.
  unfoldable pub compress_blocks : Settings → ℕ → List ℕ → List ℕ → List ℕ
  compress_blocks settings dst_capacity order src =
      let slots = run_tasks settings src order (λ i. encoder.no_tokens) in
      let raw_capacity =
        dst_capacity - length (format_header settings.format) - trailer_size settings.format in
      let bw =
        encode_blocks settings src slots (count_blocks settings.block_size (length src)) 0
          (encoder.new_writer raw_capacity) in
      format_header settings.format ++ (encoder.written bw ++ format_trailer settings.format src)

  -- `none` is 0.
  unfoldable pub compress : Settings → ℕ → List ℕ → List ℕ → Option (List ℕ)
  compress settings dst_capacity order src =
      let format = settings.format in
      let rest =
        if ltb dst_capacity (header_room format)
        then none
        else if ltb dst_capacity (length (format_header format) + trailer_size format)
        then none
        else some (compress_blocks settings dst_capacity order src) in
      if length src == 0
      then (if ltb dst_capacity (deflate_compress_bound_internal format 0) then none else rest)
      else rest
