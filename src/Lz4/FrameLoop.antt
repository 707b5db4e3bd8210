-- ===== src/Lz4/FrameLoop.antt =====
-- The block loop of lz4f_compress, src/lz4/lz4_frame.cpp: what it answers.
use mathlib.Core.List.{flatten}
use native.Mathlib.Decide.{ℕ_discrete}
use orot.Base.{
  ℕ, zero, suc, ◌+◌, ◌≤◌, ◌<◌, ◌≡◌, refl, sym, ap, ◌∙◌, List, [], ◌∷◌, ◌++◌, Outcome, done, fails,
  stuck, arith, length, take, drop, ltb, if-both, All, All-take, All-drop, ltb→lt, subst,
  length-append, length-drop, length-take, append_assoc, append-nil, take-append-drop,
}
use orot.Lz4.Block.{Config, Error, too_small, block_compress_bound}
use orot.Lz4.Compress.{Tables, block_compress}
use orot.Lz4.Match.{IsByte}
use orot.Lz4.XxHash.{State, update, update_all}
use orot.Lz4.RoundTrip.{IsEncoding, IsCompressed, refused, encoded, block_compress-IsCompressed}
use orot.Lz4.Frame.{
  block_max, write_block, compress_chunk, write_le32, block_field, compress_blocks,
}
use orot.Lz4.FrameBlocks.{
  IsField, IsBlocks, IsBlocks-nil, IsBlocks-cons, block_field-IsField, blocks_bound,
  length-write_le32,
}

-- What compress_chunk answers: -1 where the chunk would not fit as it is, or one more field.
data IsWritten (room : ℕ) (chunk out : List ℕ) : Outcome Error (List ℕ) → Type 0 where
  no_room : room < length out + 4 + length chunk → IsWritten room chunk out (fails too_small)
  written :
      (f : ℕ × List ℕ)
      → IsField chunk f
      → IsWritten room chunk out (done (out ++ (write_le32 f.0 ++ f.1)))

write_block-IsWritten :
    (room : ℕ) (out chunk block : List ℕ)
    → 0 < length chunk
    → length chunk ≤ block_max
    → IsEncoding chunk block
    → IsWritten room chunk out (write_block room out chunk block)
unfolding write_block
write_block-IsWritten room out chunk block some_bytes le encoding =
    let field = block_field-IsField chunk block some_bytes le encoding in
    if-both (IsWritten room chunk out)
      (ltb room (length out + 4 + length (block_field chunk block).1)) _ _
      (λ full. no_room (omega (arith, ltb→lt _ _ full, field.size)))
      (λ _. written (block_field chunk block) field)

compress_chunk-IsWritten :
    (cfg : Config) (tables : ℕ → Tables) (block_bound room remaining : ℕ) (chunk out : List ℕ)
    → All IsByte chunk
    → 0 < length chunk
    → length chunk ≤ block_max
    → block_compress_bound (length chunk) ≤ block_bound
    → IsWritten room chunk out (compress_chunk cfg tables block_bound room remaining chunk out)
unfolding compress_chunk
compress_chunk-IsWritten cfg tables block_bound room remaining chunk out bytes some_bytes le
      enough =
    go (block_compress cfg chunk (tables remaining) block_bound)
      (block_compress-IsCompressed cfg chunk bytes (omega arith) (tables remaining) block_bound)
  where
    go :
        (r : Outcome Error (List ℕ))
        → IsCompressed chunk block_bound r
        → IsWritten room chunk out (elim r [
          | fails e ↦ fails too_small
          | stuck ↦ stuck
          | done block ↦ write_block room out chunk block
        ])
    go _ (refused h) = absurd (omega arith)
    go _ (encoded {block = block} fits e) =
        write_block-IsWritten room out chunk block some_bytes le e

-- What the block loop answers.
pub data IsFramed (room : ℕ) (src out : List ℕ) (hash : State)
    : Outcome Error (List ℕ × State) → Type 0 where
  full :
      room < length out + blocks_bound (length src) → IsFramed room src out hash (fails too_small)
  framed :
      (bytes : List ℕ) (chunks : List (List ℕ)) {o : List ℕ} {h : State}
      → IsBlocks src bytes
      → flatten chunks ≡ src
      → o ≡ out ++ bytes
      → h ≡ update_all hash chunks
      → IsFramed room src out hash (done (o, h))

module _ (cfg : Config) (tables : ℕ → Tables) (block_bound room : ℕ) where
  compress_blocks-step :
      (fuel : ℕ) (src out : List ℕ) (hash : State)
      → 0 < length src
      → compress_blocks cfg tables block_bound (suc fuel) room src out hash
        ≡ (elim (compress_chunk cfg tables block_bound room (length src) (take block_max src) out) [
          | fails e ↦ fails e
          | stuck ↦ stuck
          | done out' ↦
              compress_blocks cfg tables block_bound fuel room
                (drop block_max src)
                out'
                (update hash (take block_max src))
        ])
  unfolding compress_blocks
  compress_blocks-step fuel [] out hash h = absurd (omega arith)
  compress_blocks-step fuel (b ∷ src) out hash h = refl

  no_blocks :
      (fuel : ℕ) (src out : List ℕ) (hash : State)
      → length src ≡ 0
      → IsFramed room src out hash (compress_blocks cfg tables block_bound fuel room src out hash)
  unfolding compress_blocks flatten update_all
  no_blocks fuel [] out hash e = framed [] [] IsBlocks-nil refl (sym (append-nil out)) refl
  no_blocks fuel (b ∷ src) out hash e = absurd (omega arith)

joined :
    (room : ℕ) (src out : List ℕ) (hash : State) (f : ℕ × List ℕ)
    → 0 < length src
    → IsField (take block_max src) f
    → (r : Outcome Error (List ℕ × State))
    → IsFramed room
        (drop block_max src)
        (out ++ (write_le32 f.0 ++ f.1))
        (update hash (take block_max src))
        r
    → IsFramed room src out hash r
unfolding flatten update_all
joined room src out hash f some_bytes field _ (full h) = full (
    omega (
      arith,
      h,
      field.size,
      length-append out (write_le32 f.0 ++ f.1),
      length-append (write_le32 f.0) f.1,
      length-write_le32 f.0,
      length-take block_max src,
      length-drop block_max src,
    ))
joined room src out hash f some_bytes field _ (framed bytes' chunks blocks flat eo eh) =
    framed (write_le32 f.0 ++ (f.1 ++ bytes')) (take block_max src ∷ chunks)
      (IsBlocks-cons src f bytes' some_bytes field blocks)
      (ap (λ s. take block_max src ++ s) flat ∙ take-append-drop block_max src)
      (eo
        ∙ append_assoc out (write_le32 f.0 ++ f.1) bytes'
        ∙ ap (λ s. out ++ s) (append_assoc (write_le32 f.0) f.1 bytes'))
      eh

module _ (cfg : Config) (tables : ℕ → Tables) (block_bound room : ℕ) where
  pub compress_blocks-IsFramed :
      (fuel : ℕ) (src out : List ℕ) (hash : State)
      → length src ≤ fuel
      → All IsByte src
      → ((n : ℕ) → n ≤ length src → n ≤ block_max → block_compress_bound n ≤ block_bound)
      → IsFramed room src out hash (compress_blocks cfg tables block_bound fuel room src out hash)
  compress_blocks-IsFramed zero src out hash enough bytes bound =
      no_blocks cfg tables block_bound room zero src out hash (omega arith)
  compress_blocks-IsFramed (suc fuel) src out hash enough bytes bound =
      elim (ℕ_discrete (length src) 0) [
        | yes e ↦ no_blocks cfg tables block_bound room (suc fuel) src out hash e
        | no some_bytes ↦
            subst (IsFramed room src out hash)
              (sym
                (compress_blocks-step cfg tables block_bound room fuel src out hash (omega arith)))
              (go (omega arith) _
                (compress_chunk-IsWritten cfg tables block_bound room (length src)
                  (take block_max src) out (All-take IsByte block_max src bytes)
                  (omega (arith, length-take block_max src))
                  (omega (arith, length-take block_max src))
                  (bound (length (take block_max src)) (omega (arith, length-take block_max src))
                    (omega (arith, length-take block_max src))))
                (λ out'.
                  compress_blocks-IsFramed fuel (drop block_max src) out'
                    (update hash (take block_max src)) (omega (arith, length-drop block_max src))
                    (All-drop IsByte block_max src bytes)
                    (λ n h. bound n (omega (arith, length-drop block_max src)))))
      ]
    where
      go :
          0 < length src
          → (r : Outcome Error (List ℕ)) → IsWritten room (take block_max src) out r
          → ((out' : List ℕ)
              → IsFramed room (drop block_max src) out' (update hash (take block_max src)) (
                  compress_blocks cfg tables block_bound fuel room
                    (drop block_max src)
                    out'
                    (update hash (take block_max src))))
          → IsFramed room src out hash (elim r [
            | fails e ↦ fails e
            | stuck ↦ stuck
            | done out' ↦
                compress_blocks cfg tables block_bound fuel room
                  (drop block_max src)
                  out'
                  (update hash (take block_max src))
          ])
      go some_bytes _ (no_room h) rec = full (omega (arith, length-take block_max src))
      go some_bytes _ (written f field) rec =
          joined room src out hash f some_bytes field _ (rec (out ++ (write_le32 f.0 ++ f.1)))
