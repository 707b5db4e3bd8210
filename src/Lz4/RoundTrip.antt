-- ===== src/Lz4/RoundTrip.antt =====
-- lz4_block_compress and lz4_block_decompress are inverse, for every level and every table content.
use orot.Base.{
  ℕ, zero, suc, ◌+◌, ◌-◌, ◌/◌, ◌^◌, ◌≤◌, ◌<◌, ◌≡◌, refl, sym, inl, inr, false, List, [], ◌∷◌, ◌++◌,
  Option, none, some, Outcome, done, fails, or_fail, arith, length, take, drop, ltb, leb, ◌==◌,
  if-both, All, ==_iff, Bool-cases, leb→le, ltb→lt, subst, length-append, length-drop, take_all,
}
use orot.Lz4.Block.{
  Config, Error, too_small, decode_loop, decode_sequence, decode_offset, read_length,
  block_decompress, block_decompress_with_prefix, block_compress_bound, emit_sequence,
}
use orot.Lz4.Sequence.{sequence_bytes, emit_sequence-sequence_bytes}
use orot.Lz4.Compress.{
  Tables, Scan, match_limit, scan_step, scan_loop, scan_start, block_compress, reset, hash_at,
}
use orot.Lz4.Match.{IsByte}
use orot.Lz4.Round.{Decodes, Decodes-nil, Decodes-last}
use orot.Lz4.Scan.{
  IsScanned, IsProgress, StepResult, full, moved, scan_step-StepResult, last_sequence_bound,
}

-- A block for `src`: not above the bound, and decoded to `src` whatever room is left behind it.
pub record IsEncoding (src block : List ℕ) : Type 0 where
  pub size : length block ≤ block_compress_bound (length src)
  pub decoded : (dst_cap : ℕ) → length src ≤ dst_cap → block_decompress dst_cap block ≡ done src

-- A compressor's answer: an encoding that fits the room, or -1 where the room is below the bound.
pub data IsCompressed (src : List ℕ) (room : ℕ) : Outcome Error (List ℕ) → Type 0 where
  refused : room < block_compress_bound (length src) → IsCompressed src room (fails too_small)
  encoded :
      {block : List ℕ}
      → length block ≤ room
      → IsEncoding src block
      → IsCompressed src room (done block)

pub bound_lem : (n : ℕ) → block_compress_bound n ≡ n + n / 255 + 16
unfolding block_compress_bound
bound_lem n = ground arith

block_decompress_lem :
    (dst_cap : ℕ) (block src : List ℕ)
    → decode_loop (length block) (0 + dst_cap) block [] ≡ done src
    → block_decompress dst_cap block ≡ done src
unfolding block_decompress block_decompress_with_prefix
block_decompress_lem dst_cap block src e = rw e

-- The final sequence ends an encoding.
last_emitted :
    (src out : List ℕ) (room anchor : ℕ)
    → Decodes out (take anchor src)
    → anchor ≤ length src
    → length out ≤ anchor + anchor / 255
    → length src < 2 ^ 31
    → IsCompressed src room (or_fail (emit_sequence room out (drop anchor src) 0 0) too_small)
last_emitted src out room anchor decodes inside size small =
    subst (λ o. IsCompressed src room (or_fail o too_small))
      (sym (emit_sequence-sequence_bytes room out (drop anchor src) 0 0 (inl refl)))
      (elim (Bool-cases (leb (length out + length seq) room)) [
        | inl p ↦ rw p (
            encoded (omega (arith, leb→le _ _ p, length-append out seq))
              (record { size = omega (arith, bound, length-append out seq); decoded = decoded }))
        | inr p ↦ rw p (refused (ground (arith, p, bound)))
      ])
  where
    seq : List ℕ
    seq = sequence_bytes (drop anchor src) 0 0

    bound : length out + length seq ≤ block_compress_bound (length src)
    bound = omega (
      arith,
      bound_lem (length src),
      last_sequence_bound (drop anchor src) (length out) anchor size,
      length-drop anchor src,
    )

    decoded :
        (dst_cap : ℕ) → length src ≤ dst_cap → block_decompress dst_cap (out ++ seq) ≡ done src
    decoded dst_cap le = block_decompress_lem dst_cap (out ++ seq) src (
        Decodes-last out src anchor (0 + dst_cap) (length (out ++ seq)) decodes inside (omega arith)
          small (omega arith))

-- The block for no input: one token with no literals.
empty_block : (src : List ℕ) → length src ≡ 0 → IsEncoding src (0 ∷ [])
unfolding block_decompress block_decompress_with_prefix decode_loop decode_sequence read_length
    decode_offset
empty_block [] e = record {
  size = omega (arith, bound_lem 0);
  decoded = λ dst_cap le. ground arith;
}
empty_block (x ∷ src) e = absurd (omega arith)

module _ (cfg : Config) (src : List ℕ) (bytes : All IsByte src) (small : length src < 2 ^ 31) where
  scan_loop-IsCompressed :
      (fuel room : ℕ) (s : Scan)
      → length src - s.ip < fuel
      → 12 ≤ length src
      → IsScanned cfg src bytes small s
      → IsCompressed src room (scan_loop cfg src fuel room s)
  unfolding scan_loop
  scan_loop-IsCompressed zero room s enough long i = absurd (omega arith)
  scan_loop-IsCompressed (suc fuel) room s enough long i =
      if-both (IsCompressed src room) (ltb s.ip (match_limit cfg src)) _ _
        (λ before.
          go (scan_step cfg src room s)
            (scan_step-StepResult cfg src bytes small room s (ground arith) i)
            (λ s' p.
              scan_loop-IsCompressed fuel room s' (omega (arith, p.further, ltb→lt _ _ before)) long
                p.scanned))
        (λ _.
          subst (λ v. IsCompressed src room (or_fail (emit_sequence room s.out v 0 0) too_small))
            (sym (
              take_all (length src - s.anchor) (drop s.anchor src)
                (omega (arith, length-drop s.anchor src))))
            (last_emitted src s.out room s.anchor i.decodes i.inside i.size small))
    where
      go :
          (o : Option Scan)
          → StepResult cfg src bytes small room s o
          → ((s' : Scan)
              → IsProgress cfg src bytes small s.ip s'
              → IsCompressed src room (scan_loop cfg src fuel room s'))
          → IsCompressed src room
              (elim o [ none ↦ fails too_small | some s' ↦ scan_loop cfg src fuel room s' ])
      go none (full h) rec = refused h
      go (some s') (moved p) rec = rec s' p

  scan_start-IsScanned : (t : Tables) → IsScanned cfg src bytes small (scan_start cfg src t)
  unfolding scan_start reset
  scan_start-IsScanned t = record {
    decodes = Decodes-nil;
    anchored = omega arith;
    inside = omega arith;
    size = omega arith;
    bounded = record {
      heads = λ h.
          if-both (λ k. k ≤ 1) (h == hash_at cfg src 0) _ _ (λ _. omega arith) (λ _. omega arith);
      links = λ chained k. rw chained (omega arith);
    };
    steps = omega arith;
    steps_above = omega arith;
  }

  started :
      (t : Tables)
      → ltb (length src) 16 ≡ false
      → length src - (scan_start cfg src t).ip < length src
  unfolding scan_start
  started t long = ground arith

  pub block_compress-IsCompressed :
      (t : Tables) (room : ℕ) → IsCompressed src room (block_compress cfg src t room)
  unfolding block_compress
  block_compress-IsCompressed t room =
      if-both (IsCompressed src room) (length src == 0) _ _
        (λ e.
          if-both (IsCompressed src room) (ltb room 1) _ _
            (λ full. refused (omega (arith, ltb→lt _ _ full, bound_lem (length src))))
            (λ fits. encoded (ground arith) (empty_block src ((==_iff _ _).0 e))))
        (λ _.
          if-both (IsCompressed src room) (ltb (length src) 16) _ _
            (λ _. last_emitted src [] room 0 Decodes-nil (omega arith) (omega arith) small)
            (λ long.
              scan_loop-IsCompressed (length src) room (scan_start cfg src t) (started t long)
                (ground arith) (scan_start-IsScanned t)))
