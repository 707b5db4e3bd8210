-- ===== src/Lz4/FrameSafety.antt =====
-- Every input of lz4f_decompress, src/lz4/lz4_frame.cpp.
use orot.Base.{
  ℕ, zero, suc, ◌+◌, ◌-◌, ◌%◌, ◌≤◌, ◌<◌, ◌≡◌, refl, sym, ap, subst, ◌⊎◌, inl, inr, List, [], ◌∷◌,
  ◌++◌, Bool, true, false, Option, none, some, arith, length, take, drop, ltb, leb, ◌==◌, not,
  if◌then◌else◌, Outcome, done, fails, stuck, if-both, option-both, length-append, length-drop,
  length-take, bit_and,
}
use mathlib.Core.Option.{some-injective}
use orot.Lz4.Block.{Error, too_small, malformed, bad_checksum, block_decompress_with_prefix}
use orot.Lz4.Safety.{block_decompress_with_prefix_total}
use orot.Lz4.XxHash.{xxh32}
use orot.Lz4.Frame.{
  magic, block_max, block_uncomp, flag_version, flag_content_cs, read_le32, header_checksum,
  skip_field, decompress_blocks, check_content, decompress_body, decompress_header, lz4f_decompress,
}

-- The routine has ended, with an error or within the capacity.
abbrev IsWithin : ℕ → Outcome Error (List ℕ) → Type 0
IsWithin cap (done out) = length out ≤ cap
IsWithin cap (fails e) = Unit
IsWithin cap stuck = ⊥

abbrev IsLoopWithin : ℕ → Outcome Error (List ℕ × List ℕ) → Type 0
IsLoopWithin cap (done r) = length r.0 ≤ cap
IsLoopWithin cap (fails e) = Unit
IsLoopWithin cap stuck = ⊥

length-read_le32 :
    (ip : List ℕ) (r : ℕ × List ℕ) → read_le32 ip ≡ some r → length ip ≡ length r.1 + 4
unfolding read_le32
length-read_le32 [] r e = absurd (cc)
length-read_le32 (a ∷ []) r e = absurd (cc)
length-read_le32 (a ∷ b ∷ []) r e = absurd (cc)
length-read_le32 (a ∷ b ∷ c ∷ []) r e = absurd (cc)
length-read_le32 (a ∷ b ∷ c ∷ d ∷ ip) r e =
    omega (arith, ap (λ (t : ℕ × List ℕ). length t.1) (some-injective _ r e))

-- What the loop does with the result of a block.
abbrev unpacked :
    (List ℕ → Outcome Error (List ℕ × List ℕ))
    → Outcome Error (List ℕ)
    → Outcome Error (List ℕ × List ℕ)
unpacked next (done bytes) = next bytes
unpacked next (fails too_small) = fails too_small
unpacked next (fails malformed) = fails malformed
unpacked next (fails bad_checksum) = fails malformed
unpacked next stuck = stuck

unpacked-IsLoopWithin :
    (next : List ℕ → Outcome Error (List ℕ × List ℕ)) (r : Outcome Error (List ℕ)) (room cap : ℕ)
    → ((out : List ℕ) × (r ≡ done out) × (length out ≤ room)) ⊎ ((e : Error) × (r ≡ fails e))
    → ((out : List ℕ) → length out ≤ room → IsLoopWithin cap (next out))
    → IsLoopWithin cap (unpacked next r)
unpacked-IsLoopWithin next r room cap (inl (out, e, le)) h =
    subst (λ t. IsLoopWithin cap (unpacked next t)) (sym e) (h out le)
unpacked-IsLoopWithin next r room cap (inr (e, e')) h =
    subst (λ t. IsLoopWithin cap (unpacked next t)) (sym e') (failed e)
  where
    failed : (e : Error) → IsLoopWithin cap (unpacked next (fails e))
    failed too_small = tt
    failed malformed = tt
    failed bad_checksum = tt

decompress_blocks-IsLoopWithin :
    (fuel : ℕ) (independent : Bool) (dst_cap : ℕ) (ip out : List ℕ)
    → length ip < fuel
    → length out ≤ dst_cap
    → IsLoopWithin dst_cap (decompress_blocks fuel independent dst_cap ip out)
unfolding decompress_blocks
decompress_blocks-IsLoopWithin zero independent dst_cap ip out lt le = absurd (omega arith)
decompress_blocks-IsLoopWithin (suc fuel) independent dst_cap ip out lt le =
    option-both (IsLoopWithin dst_cap) (read_le32 ip) (fails malformed) _ (λ e. tt)
      (λ r e.
        let len : ℕ = r.0 % block_uncomp in
        let shorter = length-read_le32 ip r e in
        let next : (more : List ℕ)
            → length out + length more ≤ dst_cap
            → IsLoopWithin dst_cap
                (decompress_blocks fuel independent dst_cap (drop len r.1) (out ++ more)) =
          λ more fits.
            decompress_blocks-IsLoopWithin fuel independent dst_cap (drop len r.1) (out ++ more)
              (omega (arith, shorter, length-drop len r.1))
              (omega (arith, length-append out more)) in
        (if-both (IsLoopWithin dst_cap) (r.0 == 0) (done (out, r.1)) _ (λ h. le)
          (λ h.
            if-both (IsLoopWithin dst_cap) (ltb block_max len) (fails malformed) _ (λ h. tt)
              (λ limited.
                if-both (IsLoopWithin dst_cap) (ltb (length r.1) len) (fails malformed) _ (λ h. tt)
                  (λ h.
                    if-both (IsLoopWithin dst_cap) (leb block_uncomp r.0) _ _
                      (λ h.
                        if-both (IsLoopWithin dst_cap) (ltb dst_cap (length out + len))
                          (fails too_small) _ (λ h. tt)
                          (λ room. next (take len r.1) (ground (arith, length-take len r.1, room))))
                      (λ h.
                        unpacked-IsLoopWithin
                          (λ bytes.
                            decompress_blocks fuel independent dst_cap (drop len r.1)
                              (out ++ bytes))
                          (block_decompress_with_prefix (if independent then [] else out)
                            (dst_cap - length out) (take len r.1))
                          (dst_cap - length out) dst_cap
                          (block_decompress_with_prefix_total (if independent then [] else out)
                            (take len r.1) (dst_cap - length out)
                            (ground (arith, length-take len r.1, limited)))
                          (λ bytes fits. next bytes (omega (arith, fits)))))))))

check_content-IsWithin :
    (wanted : Bool) (cap : ℕ) (out ip : List ℕ)
    → length out ≤ cap
    → IsWithin cap (check_content wanted out ip)
unfolding check_content
check_content-IsWithin false cap out ip le = le
check_content-IsWithin true cap out ip le =
    option-both (IsWithin cap) (read_le32 ip) (fails malformed) _ (λ e. tt)
      (λ r e.
        if-both (IsWithin cap) (r.0 == xxh32 0 out) (done out) (fails bad_checksum) (λ h. le)
          (λ h. tt))

decompress_body-IsWithin :
    (flg dst_cap : ℕ) (ip : List ℕ) → IsWithin dst_cap (decompress_body flg dst_cap ip)
unfolding decompress_body
decompress_body-IsWithin flg dst_cap ip =
    after (decompress_blocks (suc (length ip)) (not (bit_and flg 0x20 == 0)) dst_cap ip []) (
      decompress_blocks-IsLoopWithin (suc (length ip)) (not (bit_and flg 0x20 == 0)) dst_cap ip []
        (omega arith) (omega arith))
  where
    after :
        (r : Outcome Error (List ℕ × List ℕ))
        → IsLoopWithin dst_cap r
        → IsWithin dst_cap (elim r [
          | fails e ↦ fails e
          | stuck ↦ stuck
          | done (out, ip') ↦ check_content (not (bit_and flg flag_content_cs == 0)) out ip'
        ])
    after (done (out, ip')) h =
        check_content-IsWithin (not (bit_and flg flag_content_cs == 0)) dst_cap out ip' h
    after (fails e) h = tt
    after stuck h = h

decompress_header-IsWithin :
    (dst_cap : ℕ) (ip : List ℕ) → IsWithin dst_cap (decompress_header dst_cap ip)
unfolding decompress_header
decompress_header-IsWithin dst_cap [] = tt
decompress_header-IsWithin dst_cap (flg ∷ []) = tt
decompress_header-IsWithin dst_cap (flg ∷ bd ∷ ip) =
    if-both (IsWithin dst_cap) (not (bit_and flg 0xC0 == flag_version)) (fails malformed) _
      (λ h. tt)
      (λ h.
        option-both (IsWithin dst_cap) (skip_field (not (bit_and flg 0x08 == 0)) 8 ip)
          (fails malformed) _ (λ e. tt)
          (λ ip1 e. behind (skip_field (not (bit_and flg 0x01 == 0)) 4 ip1)))
  where
    behind :
        (o : Option (List ℕ))
        → IsWithin dst_cap (elim o [
          | none ↦ fails malformed
          | some [] ↦ fails malformed
          | some (hc ∷ ip2) ↦
              let hdr_len = length (flg ∷ bd ∷ ip) - length (hc ∷ ip2) in
              if header_checksum (take hdr_len (flg ∷ bd ∷ ip)) == hc
              then decompress_body flg dst_cap ip2
              else fails malformed
        ])
    behind none = tt
    behind (some []) = tt
    behind (some (hc ∷ ip2)) =
        if-both (IsWithin dst_cap)
          (header_checksum (take (length (flg ∷ bd ∷ ip) - length (hc ∷ ip2)) (flg ∷ bd ∷ ip))
            == hc)
          (decompress_body flg dst_cap ip2) (fails malformed)
          (λ h. decompress_body-IsWithin flg dst_cap ip2) (λ h. tt)

lz4f_decompress-IsWithin :
    (dst_cap : ℕ) (src : List ℕ) → IsWithin dst_cap (lz4f_decompress dst_cap src)
unfolding lz4f_decompress
lz4f_decompress-IsWithin dst_cap src =
    option-both (IsWithin dst_cap) (read_le32 src) (fails malformed) _ (λ e. tt)
      (λ r e.
        if-both (IsWithin dst_cap) (r.0 == magic) (decompress_header dst_cap r.1) (fails malformed)
          (λ h. decompress_header-IsWithin dst_cap r.1) (λ h. tt))

within-cases :
    (cap : ℕ) (r : Outcome Error (List ℕ))
    → IsWithin cap r
    → ((out : List ℕ) × (r ≡ done out) × (length out ≤ cap)) ⊎ ((e : Error) × (r ≡ fails e))
within-cases cap (done out) h = inl (out, refl, h)
within-cases cap (fails e) h = inr (e, refl)
within-cases cap stuck h = absurd h

-- lz4f_decompress ends on every input, with an error or with at most dst_cap bytes.
pub lz4f_decompress_total :
    (src : List ℕ) (dst_cap : ℕ)
    → ((out : List ℕ) × (lz4f_decompress dst_cap src ≡ done out) × (length out ≤ dst_cap))
      ⊎ ((e : Error) × (lz4f_decompress dst_cap src ≡ fails e))
lz4f_decompress_total src dst_cap =
    within-cases dst_cap (lz4f_decompress dst_cap src) (lz4f_decompress-IsWithin dst_cap src)
