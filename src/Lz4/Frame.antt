-- ===== src/Lz4/Frame.antt =====
-- src/lz4/lz4_frame.cpp. Allocations succeed. `tables n` is what the shared tables hold before the
-- block at which n bytes of the source remain; it is any function.
use Prim.Native.Nat.{bit_and}
use orot.Base.{
  ℕ, zero, suc, ◌+◌, ◌-◌, ◌*◌, ◌/◌, ◌%◌, ◌^◌, Bool, true, false, not, bit_or, List, [], ◌∷◌, ◌++◌,
  Option, none, some, Outcome, done, fails, stuck, length, take, drop, ltb, leb, ◌==◌,
  if◌then◌else◌,
}
use orot.Lz4.Block.{
  Config, Error, malformed, too_small, bad_checksum, config_for_level, block_compress_bound,
  block_decompress_with_prefix,
}
use orot.Lz4.Compress.{Tables, block_compress}
use orot.Lz4.XxHash.{State, reset, update, digest, xxh32}

abbrev pub magic : ℕ
magic = 0x184D2204

abbrev pub block_max : ℕ
block_max = 4 * 1024 * 1024

abbrev pub flag_version : ℕ
flag_version = 0x40

abbrev pub flag_content_cs : ℕ
flag_content_cs = 0x04

abbrev pub bd_block_4mb : ℕ
bd_block_4mb = 0x70

abbrev pub block_uncomp : ℕ
block_uncomp = 2 ^ 31

unfoldable pub write_le32 : ℕ → List ℕ
write_le32 v = (v % 256) ∷ (v / 2 ^ 8 % 256) ∷ (v / 2 ^ 16 % 256) ∷ (v / 2 ^ 24 % 256) ∷ []

-- The next word, and the input behind it; `none` where fewer than 4 bytes are left.
unfoldable pub read_le32 : List ℕ → Option (ℕ × List ℕ)
read_le32 (a ∷ b ∷ c ∷ d ∷ p) = some (a + 2 ^ 8 * b + 2 ^ 16 * c + 2 ^ 24 * d, p)
read_le32 _ = none

unfoldable pub header_checksum : List ℕ → ℕ
header_checksum header = xxh32 0 header / 2 ^ 8 % 256

unfoldable pub lz4f_compress_bound : ℕ → ℕ
lz4f_compress_bound src_len =
    7 + ((src_len + block_max - 1) / block_max + 1) * (4 + block_compress_bound block_max) + 8

-- What is stored for a chunk: the size field and the data, the chunk itself if it did not shrink.
unfoldable pub block_field : List ℕ → List ℕ → ℕ × List ℕ
block_field chunk block =
    if leb (length chunk) (length block)
    then (bit_or (length chunk) block_uncomp, chunk)
    else (length block, block)

-- The size field and the data of a chunk behind the output so far.
unfoldable pub write_block : ℕ → List ℕ → List ℕ → List ℕ → Outcome Error (List ℕ)
write_block room out chunk block =
    let (field, bytes) = block_field chunk block in
    if ltb room (length out + 4 + length bytes)
    then fails too_small
    else done (out ++ (write_le32 field ++ bytes))

module _ (cfg : Config) (tables : ℕ → Tables) (block_bound : ℕ) where
  -- The output behind one chunk; `remaining` is the length of the source from there on.
  unfoldable pub compress_chunk : ℕ → ℕ → List ℕ → List ℕ → Outcome Error (List ℕ)
  compress_chunk room remaining chunk out =
      elim (block_compress cfg chunk (tables remaining) block_bound) [
        | fails e ↦ fails too_small
        | stuck ↦ stuck
        | done block ↦ write_block room out chunk block
      ]

  -- The block loop, on the output so far and the running hash. The fuel is at least the input's
  -- length.
  unfoldable pub compress_blocks : ℕ → ℕ → List ℕ → List ℕ → State → Outcome Error (List ℕ × State)
  compress_blocks fuel room [] out hash = done (out, hash)
  compress_blocks zero room (b ∷ src) out hash = stuck
  compress_blocks (suc fuel) room (b ∷ src) out hash =
      let chunk = take block_max (b ∷ src) in
      elim (compress_chunk room (length (b ∷ src)) chunk out) [
        | fails e ↦ fails e
        | stuck ↦ stuck
        | done out' ↦ compress_blocks fuel room (drop block_max (b ∷ src)) out' (update hash chunk)
      ]

-- Magic, FLG (version 01, independent blocks, content checksum), BD and the header's checksum.
unfoldable pub frame_header : List ℕ
frame_header =
    write_le32 magic ++ (0x64 ∷ bd_block_4mb ∷ header_checksum (0x64 ∷ bd_block_4mb ∷ []) ∷ [])

-- The end mark and the content checksum.
unfoldable pub finish_frame : ℕ → List ℕ → State → Outcome Error (List ℕ)
finish_frame room out hash =
    if ltb room (length out + 4)
    then fails too_small
    else if ltb room (length out + 4 + 4)
    then fails too_small
    else done ((out ++ write_le32 0) ++ write_le32 (digest hash))

-- lz4f_compress; `too_small` is -1.
unfoldable pub lz4f_compress : (ℕ → Tables) → ℕ → ℕ → List ℕ → Outcome Error (List ℕ)
lz4f_compress tables room level src =
    let actual_block_max = if ltb (length src) block_max then length src else block_max in
    let block_bound = block_compress_bound actual_block_max in
    if ltb room 15
    then fails too_small
    else elim (compress_blocks (config_for_level level) tables block_bound (length src) room src
        frame_header (reset 0)) [
          | fails e ↦ fails e
          | stuck ↦ stuck
          | done (out, hash) ↦ finish_frame room out hash
        ]

-- Skips `n` bytes if the flag asks for it.
unfoldable pub skip_field : Bool → ℕ → List ℕ → Option (List ℕ)
skip_field flag n ip =
    if flag then (if ltb (length ip) n then none else some (drop n ip)) else some ip

-- The block loop of the decoder: the output so far, and the input. The fuel is at least the
-- input's length.
unfoldable pub decompress_blocks : ℕ → Bool → ℕ → List ℕ → List ℕ → Outcome Error (List ℕ × List ℕ)
decompress_blocks zero independent dst_cap ip out = stuck
decompress_blocks (suc fuel) independent dst_cap ip out = elim (read_le32 ip) [
  | none ↦ fails malformed
  | some (field, ip') ↦
      let uncompressed = leb block_uncomp field in
      let len = field % block_uncomp in
      let stored : Outcome Error (List ℕ × List ℕ) =
        decompress_blocks fuel independent dst_cap (drop len ip') (out ++ take len ip') in
      let prefix = if independent then [] else out in
      let unpacked : Outcome Error (List ℕ × List ℕ) =
        elim (block_decompress_with_prefix prefix (dst_cap - length out) (take len ip')) [
          | done bytes ↦ decompress_blocks fuel independent dst_cap (drop len ip') (out ++ bytes)
          | fails too_small ↦ fails too_small
          | fails malformed ↦ fails malformed
          | fails bad_checksum ↦ fails malformed
          | stuck ↦ stuck
        ] in
      if field == 0
      then done (out, ip')
      else if ltb block_max len
      then fails malformed
      else if ltb (length ip') len
      then fails malformed
      else if uncompressed
      then (if ltb dst_cap (length out + len) then fails too_small else stored)
      else unpacked
]

unfoldable pub check_content : Bool → List ℕ → List ℕ → Outcome Error (List ℕ)
check_content false out ip = done out
check_content true out ip = elim (read_le32 ip) [
  | none ↦ fails malformed
  | some (stored, ip') ↦ if stored == xxh32 0 out then done out else fails bad_checksum
]

-- From behind the header on.
unfoldable pub decompress_body : ℕ → ℕ → List ℕ → Outcome Error (List ℕ)
decompress_body flg dst_cap ip =
    elim (decompress_blocks (suc (length ip)) (not (bit_and flg 0x20 == 0)) dst_cap ip []) [
      | fails e ↦ fails e
      | stuck ↦ stuck
      | done (out, ip') ↦ check_content (not (bit_and flg flag_content_cs == 0)) out ip'
    ]

-- From behind the magic on: FLG, BD, the optional fields, and the header's checksum.
unfoldable pub decompress_header : ℕ → List ℕ → Outcome Error (List ℕ)
decompress_header dst_cap (flg ∷ bd ∷ ip) =
    if not (bit_and flg 0xC0 == flag_version)
    then fails malformed
    else elim (skip_field (not (bit_and flg 0x08 == 0)) 8 ip) [
      | none ↦ fails malformed
      | some ip1 ↦ elim (skip_field (not (bit_and flg 0x01 == 0)) 4 ip1) [
        | none ↦ fails malformed
        | some [] ↦ fails malformed
        | some (hc ∷ ip2) ↦
            let hdr_len = length (flg ∷ bd ∷ ip) - length (hc ∷ ip2) in
            if header_checksum (take hdr_len (flg ∷ bd ∷ ip)) == hc
            then decompress_body flg dst_cap ip2
            else fails malformed
      ]
    ]
decompress_header dst_cap _ = fails malformed

unfoldable pub lz4f_decompress : ℕ → List ℕ → Outcome Error (List ℕ)
lz4f_decompress dst_cap src = elim (read_le32 src) [
  | none ↦ fails malformed
  | some (word, ip) ↦ if word == magic then decompress_header dst_cap ip else fails malformed
]
