-- ===== src/Lz4/FrameRoundTrip.antt =====
-- lz4f_compress and lz4f_decompress of src/lz4/lz4_frame.cpp are inverse.
use mathlib.Core.List.{flatten}
use orot.Base.{
  ℕ, suc, ◌+◌, ◌-◌, ◌^◌, ◌≤◌, ◌<◌, ◌≡◌, refl, sym, ap, ◌∙◌, true, false, List, [], ◌∷◌, ◌++◌,
  Outcome, done, fails, stuck, arith, length, ltb, leb, if◌then◌else◌, if-both, All, ltb→lt,
  length-append, append_assoc, append-nil, ==_iff,
}
use orot.Base.Bits.{bit_xor-lt}
use orot.Lz4.Block.{Error, too_small, block_compress_bound, config_for_level}
use orot.Lz4.Compress.{Tables}
use orot.Lz4.Match.{IsByte}
use orot.Lz4.XxHash.{State, reset, digest, xxh32, update_all, finish, avalanche}
use orot.Lz4.HashStream.{digest-update_all}
use orot.Lz4.RoundTrip.{bound_lem}
use orot.Lz4.FrameBlocks.{IsBlocks, read_le32-write_le32, length-write_le32, blocks_bound}
use orot.Lz4.FrameLoop.{IsFramed, full, framed, compress_blocks-IsFramed}
use orot.Lz4.Frame.{
  magic, block_max, write_le32, frame_header, finish_frame, lz4f_compress, lz4f_compress_bound,
  lz4f_decompress, decompress_header, decompress_body, check_content, skip_field, header_checksum,
}

avalanche-lt : (h : ℕ) → avalanche h < 2 ^ 32
unfolding avalanche
avalanche-lt h = bit_xor-lt 32 _ _ (omega arith) (omega arith)

xxh32-lt : (seed : ℕ) (p : List ℕ) → xxh32 seed p < 2 ^ 32
unfolding xxh32 finish
xxh32-lt seed p =
    if-both (λ h. h < 2 ^ 32) (leb 16 (length p)) _ _ (λ _. avalanche-lt _) (λ _. avalanche-lt _)

check_content-true : (out : List ℕ) → check_content true out (write_le32 (xxh32 0 out)) ≡ done out
unfolding check_content
check_content-true out =
    rw
      (
        check_content,
        sym (append-nil (write_le32 (xxh32 0 out))),
        read_le32-write_le32 (xxh32 0 out) [] (xxh32-lt 0 out),
        (==_iff (xxh32 0 out) (xxh32 0 out)).1 refl,
      )
      refl

-- The header that the compressor writes is accepted.
decompress_header-accepts :
    (dst_cap : ℕ) (ip : List ℕ)
    → decompress_header dst_cap (0x64 ∷ 0x70 ∷ header_checksum (0x64 ∷ 0x70 ∷ []) ∷ ip)
      ≡ decompress_body 0x64 dst_cap ip
unfolding decompress_header skip_field
decompress_header-accepts dst_cap ip =
    let e : length (0x64 ∷ 0x70 ∷ 0 ∷ ip) - length (0 ∷ ip) ≡ 2 = omega arith in
    rw
      (e, (==_iff (header_checksum (0x64 ∷ 0x70 ∷ [])) (header_checksum (0x64 ∷ 0x70 ∷ []))).1 refl)
      refl

decompress_body-blocks :
    (dst_cap : ℕ) (src bytes : List ℕ)
    → IsBlocks src bytes
    → length src ≤ dst_cap
    → decompress_body 0x64 dst_cap (bytes ++ (write_le32 0 ++ write_le32 (xxh32 0 src))) ≡ done src
unfolding decompress_body
decompress_body-blocks dst_cap src bytes blocks le =
    let rest = write_le32 0 ++ write_le32 (xxh32 0 src) in
    rw
      (
        decompress_body,
        blocks.decoded (suc (length (bytes ++ rest))) dst_cap (write_le32 (xxh32 0 src)) []
            (omega (arith, length-append bytes rest)) (omega arith),
      )
      (check_content-true src)

lz4f_decompress-blocks :
    (dst_cap : ℕ) (src bytes : List ℕ)
    → IsBlocks src bytes
    → length src ≤ dst_cap
    → lz4f_decompress dst_cap
        (((frame_header ++ bytes) ++ write_le32 0) ++ write_le32 (xxh32 0 src))
      ≡ done src
unfolding lz4f_decompress frame_header
lz4f_decompress-blocks dst_cap src bytes blocks le =
    let d = write_le32 (xxh32 0 src) in
    let ip = bytes ++ (write_le32 0 ++ d) in
    let header = 0x64 ∷ 0x70 ∷ header_checksum (0x64 ∷ 0x70 ∷ []) ∷ [] in
    rw
      (
        append_assoc ((write_le32 magic ++ header) ++ bytes) (write_le32 0) d,
        append_assoc (write_le32 magic ++ header) bytes (write_le32 0 ++ d),
        append_assoc (write_le32 magic) header ip,
        lz4f_decompress,
        read_le32-write_le32 magic (header ++ ip) (omega arith),
      )
      (decompress_header-accepts dst_cap ip ∙ decompress_body-blocks dst_cap src bytes blocks le)

-- A frame that was written: it fits, and it is decoded.
abbrev IsFrame : ℕ → List ℕ → List ℕ → Type 0
IsFrame room src frame =
    (length frame ≤ room)
    × ((dst_cap : ℕ) → length src ≤ dst_cap → lz4f_decompress dst_cap frame ≡ done src)

-- What lz4f_compress answers.
data IsCompressedFrame (src : List ℕ) (room : ℕ) : Outcome Error (List ℕ) → Type 0 where
  refused : room < lz4f_compress_bound (length src) → IsCompressedFrame src room (fails too_small)
  stored : (frame : List ℕ) → IsFrame room src frame → IsCompressedFrame src room (done frame)

lz4f_compress_bound_lem : (n : ℕ) → 15 + blocks_bound n ≤ lz4f_compress_bound n
unfolding lz4f_compress_bound block_compress_bound
lz4f_compress_bound_lem n = omega arith

length-frame_header : length frame_header ≡ 7
unfolding frame_header write_le32
length-frame_header = refl

finish_frame_lem :
    (src bytes : List ℕ) (chunks : List (List ℕ)) (room : ℕ)
    → length src < 2 ^ 31
    → IsBlocks src bytes
    → flatten chunks ≡ src
    → IsCompressedFrame src room
        (finish_frame room (frame_header ++ bytes) (update_all (reset 0) chunks))
unfolding finish_frame
finish_frame_lem src bytes chunks room small blocks flat =
    if-both (IsCompressedFrame src room) (ltb room (length out + 4)) _ _
      (λ f.
        refused
          (omega (arith, header, ltb→lt _ _ f, lz4f_compress_bound_lem (length src), blocks.size)))
      (λ _.
        if-both (IsCompressedFrame src room) (ltb room (length out + 4 + 4)) _ _
          (λ f. refused (
            omega (arith, header, ltb→lt _ _ f, lz4f_compress_bound_lem (length src), blocks.size)))
          (λ fits. stored _ (size fits, decoded)))
  where
    out : List ℕ
    out = frame_header ++ bytes

    header : length out ≡ 7 + length bytes
    header = omega (arith, length-append frame_header bytes, length-frame_header)

    hash : ℕ
    hash = digest (update_all (reset 0) chunks)

    hash_lem : hash ≡ xxh32 0 src
    hash_lem = digest-update_all 0 chunks (omega (arith, ap length flat)) ∙ ap (λ s. xxh32 0 s) flat

    size :
        ltb room (length out + 4 + 4) ≡ false
        → length ((out ++ write_le32 0) ++ write_le32 hash) ≤ room
    size fits = ground (
      arith,
      fits,
      length-append (out ++ write_le32 0) (write_le32 hash),
      length-append out (write_le32 0),
      length-write_le32 0,
      length-write_le32 hash,
    )

    decoded :
        (dst_cap : ℕ)
        → length src ≤ dst_cap
        → lz4f_decompress dst_cap ((out ++ write_le32 0) ++ write_le32 hash) ≡ done src
    decoded dst_cap le = rw hash_lem (lz4f_decompress-blocks dst_cap src bytes blocks le)

module _ (tables : ℕ → Tables) (level : ℕ) (src : List ℕ) (bytes : All IsByte src)
    (small : length src < 2 ^ 31) where
  lz4f_compress-IsCompressedFrame :
      (room : ℕ) → IsCompressedFrame src room (lz4f_compress tables room level src)
  unfolding lz4f_compress
  lz4f_compress-IsCompressedFrame room =
      if-both (IsCompressedFrame src room) (ltb room 15) _ _
        (λ f. refused (omega (arith, ltb→lt _ _ f, lz4f_compress_bound_lem (length src))))
        (λ _. go _ (
          compress_blocks-IsFramed (config_for_level level) tables
            (block_compress_bound (if ltb (length src) block_max then length src else block_max))
            room (length src) src frame_header (reset 0) (omega arith) bytes within))
    where
      within :
          (n : ℕ)
          → n ≤ length src
          → n ≤ block_max
          → block_compress_bound n
            ≤ block_compress_bound (if ltb (length src) block_max then length src else block_max)
      within n h h' =
          rw (bound_lem n, bound_lem (if ltb (length src) block_max then length src else block_max))
            (ground arith)

      go :
          (r : Outcome Error (List ℕ × State))
          → IsFramed room src frame_header (reset 0) r
          → IsCompressedFrame src room
              (elim r [ fails e ↦ fails e | stuck ↦ stuck | done x ↦ finish_frame room x.0 x.1 ])
      go _ (full h) =
          refused (omega (arith, lz4f_compress_bound_lem (length src), length-frame_header))
      go _ (framed frame chunks blocks flat eo eh) =
          rw (eo, eh) (finish_frame_lem src frame chunks room small blocks flat)

  -- With room for the bound, and whatever the shared tables held before each block, lz4f_compress
  -- succeeds, and lz4f_decompress gives the source back from its frame if it has room for the
  -- source. The source is a list of bytes shorter than 2 ^ 31.
  pub lz4f_decompress-lz4f_compress :
      (room dst_cap : ℕ)
      → lz4f_compress_bound (length src) ≤ room
      → length src ≤ dst_cap
      → (frame : List ℕ) × (lz4f_compress tables room level src ≡ done frame)
        × (length frame ≤ room)
        × (lz4f_decompress dst_cap frame ≡ done src)
  lz4f_decompress-lz4f_compress room dst_cap enough le =
      given (lz4f_compress tables room level src) (lz4f_compress-IsCompressedFrame room)
    where
      given :
          (r : Outcome Error (List ℕ))
          → IsCompressedFrame src room r
          → (frame : List ℕ) × (r ≡ done frame)
            × (length frame ≤ room)
            × (lz4f_decompress dst_cap frame ≡ done src)
      given _ (refused h) = absurd (omega arith)
      given _ (stored frame is_frame) = (frame, refl, is_frame.0, is_frame.1 dst_cap le)
