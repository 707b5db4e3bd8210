-- ===== src/Lz4/Safety.antt =====
-- The block decoder on input that is well formed or not: it ends, and stays inside its output.
use orot.Base.{
  ◌<◌, ◌^◌, leb, ℕ, zero, suc, ◌+◌, ◌*◌, ◌/◌, ◌%◌, ◌≤◌, ◌≡◌, refl, ap, ◌⊎◌, inl, inr, List, [], ◌∷◌,
  ◌++◌, Outcome, done, fails, stuck, arith, length, take, drop, ltb, ◌==◌, if-both, option-both,
  length-append, length-take, length-drop,
}
use orot.Lz4.Block.{
  Error, malformed, int_sum, Step, last, next, read_varint_extra, read_length, decode_match,
  decode_offset, decode_sequence, decode_loop, produced, block_decompress_with_prefix,
}
use orot.Lz4.Length.{read_varint_extra-le}
use orot.Lz4.Copy.{copy_bytes, copy_match-copy_bytes}

length-copy_bytes :
    (offset n : ℕ) (buf : List ℕ) → length (copy_bytes offset n buf) ≡ length buf + n
unfolding copy_bytes
length-copy_bytes offset zero buf = omega arith
length-copy_bytes offset (suc n) buf =
    omega (arith, length-copy_bytes offset n _, length-append buf _)

-- What a round may answer: a buffer within the limit, and less input than there was.
data IsStep (limit before : ℕ) : Outcome Error Step → Type 0 where
  is_last : {buf : List ℕ} → length buf ≤ limit → IsStep limit before (done (last buf))
  is_next :
      {ip buf : List ℕ}
      → length buf ≤ limit
      → length ip ≤ before
      → IsStep limit before (done (next ip buf))
  is_error : {e : Error} → IsStep limit before (fails e)

IsStep-mono :
    (limit before after : ℕ) {r : Outcome Error Step}
    → before ≤ after
    → IsStep limit before r
    → IsStep limit after r
IsStep-mono limit before after le (is_last h) = is_last h
IsStep-mono limit before after le (is_next h shorter) = is_next h (omega arith)
IsStep-mono limit before after le is_error = is_error

-- What is read of a length: no int overflows in as little input as that.
data IsLength (before : ℕ) : Outcome Error (ℕ × List ℕ) → Type 0 where
  is_truncated : IsLength before (fails malformed)
  is_length :
      {n : ℕ} {rest : List ℕ}
      → n + 4 < 2 ^ 31
      → length rest ≤ before
      → IsLength before (done (n, rest))

-- Input in which no length, with its nibble and min_match, passes an int.
abbrev IsShort : List ℕ → Type 0
IsShort ip = 255 * length ip + 19 < 2 ^ 31

read_length-IsLength :
    (nibble : ℕ) (ip : List ℕ)
    → nibble < 16
    → IsShort ip
    → IsLength (length ip) (read_length nibble ip)
unfolding read_length int_sum
read_length-IsLength nibble ip small short =
    if-both (IsLength (length ip)) (nibble == 15) _ _
      (λ _.
        option-both (IsLength (length ip)) (read_varint_extra ip) _ _
          (λ _.
            if-both (IsLength (length ip)) (leb (2 ^ 31) (255 * length ip)) _ _
              (λ big. absurd (ground (arith, big, short))) (λ _. is_truncated))
          λ (extra, ip') e.
            let r = read_varint_extra-le ip extra ip' e in
            if-both (IsLength (length ip)) (leb (2 ^ 31) (nibble + extra)) _ _
              (λ big. absurd (ground (arith, big, short, r.1, small)))
              (λ _. is_length (omega (arith, short, r.1, small)) (omega (arith, r.0))))
      (λ _. is_length (omega (arith, small)) (omega arith))

IsLength-elim :
    (limit before : ℕ) (o : Outcome Error (ℕ × List ℕ)) (k : ℕ × List ℕ → Outcome Error Step)
    → IsLength before o
    → ((n : ℕ) (rest : List ℕ)
        → n + 4 < 2 ^ 31
        → length rest ≤ before
        → IsStep limit before (k (n, rest)))
    → IsStep limit before (elim o [ done r ↦ k r | fails e ↦ fails e | stuck ↦ stuck ])
IsLength-elim limit before _ k is_truncated h = is_error
IsLength-elim limit before _ k (is_length {n} {rest} small shorter) h = h n rest small shorter

decode_match-IsStep :
    (limit offset nibble : ℕ) (ip buf : List ℕ)
    → 1 ≤ offset
    → nibble < 16
    → IsShort ip
    → IsStep limit (length ip) (decode_match limit offset nibble ip buf)
unfolding decode_match int_sum
decode_match-IsStep limit offset nibble ip buf pos small short =
    IsLength-elim limit (length ip) (read_length nibble ip) _
      (read_length-IsLength nibble ip small short)
      (λ len ip' fits shorter.
        if-both (IsStep limit (length ip)) (leb (2 ^ 31) (len + 4)) _ _
          (λ big. absurd (ground (arith, big, fits)))
          λ _.
            if-both (IsStep limit (length ip)) (ltb (length buf) offset) _ _ (λ _. is_error)
              λ back.
                if-both (IsStep limit (length ip)) (ltb limit (length buf + (len + 4))) _ _
                  (λ _. is_error)
                  λ room.
                    is_next
                      (ground (
                        arith,
                        ap length (copy_match-copy_bytes offset (len + 4) buf pos (ground arith)),
                        length-copy_bytes offset (len + 4) buf,
                      ))
                      shorter)

decode_offset-IsStep :
    (limit nibble : ℕ) (ip buf : List ℕ)
    → length buf ≤ limit
    → nibble < 16
    → IsShort ip
    → IsStep limit (length ip) (decode_offset limit nibble ip buf)
unfolding decode_offset
decode_offset-IsStep limit nibble [] buf h small short = is_last h
decode_offset-IsStep limit nibble (lo ∷ []) buf h small short = is_error
decode_offset-IsStep limit nibble (lo ∷ hi ∷ ip) buf h small short =
    if-both (IsStep limit (length (lo ∷ hi ∷ ip))) (lo + 256 * hi == 0) _ _ (λ _. is_error)
      λ pos.
        IsStep-mono limit (length ip) _ (omega arith) (
          decode_match-IsStep limit (lo + 256 * hi) nibble ip buf (ground arith) small
            (omega arith))

decode_sequence-IsStep :
    (limit token : ℕ) (ip buf : List ℕ)
    → length buf ≤ limit
    → IsShort ip
    → IsStep limit (length ip) (decode_sequence limit token ip buf)
unfolding decode_sequence
decode_sequence-IsStep limit token ip buf h short =
    IsLength-elim limit (length ip) (read_length (token / 16 % 16) ip) _
      (read_length-IsLength (token / 16 % 16) ip (omega arith) short)
      (λ lit_len ip' fits shorter.
        if-both (IsStep limit (length ip)) (ltb limit (length buf + lit_len)) _ _ (λ _. is_error)
          λ room.
            if-both (IsStep limit (length ip)) (ltb (length ip') lit_len) _ _ (λ _. is_error)
              λ has.
                IsStep-mono limit (length (drop lit_len ip')) _
                  (omega (arith, length-drop lit_len ip', shorter))
                  (decode_offset-IsStep limit (token % 16) (drop lit_len ip')
                    (buf ++ take lit_len ip')
                    (ground (arith, length-append buf (take lit_len ip'), length-take lit_len ip'))
                    (omega arith) (omega (arith, length-drop lit_len ip', shorter, short))))

-- The decoder's answer: never `stuck`, and at most `limit` bytes.
data IsDecoded (limit : ℕ) : Outcome Error (List ℕ) → Type 0 where
  is_done : {buf : List ℕ} → length buf ≤ limit → IsDecoded limit (done buf)
  is_failure : {e : Error} → IsDecoded limit (fails e)

decode_loop-IsDecoded :
    (fuel limit : ℕ) (ip buf : List ℕ)
    → length ip ≤ fuel
    → length buf ≤ limit
    → IsShort ip
    → IsDecoded limit (decode_loop fuel limit ip buf)
unfolding decode_loop
decode_loop-IsDecoded fuel limit [] buf enough h short = is_done h
decode_loop-IsDecoded zero limit (token ∷ ip) buf enough h short = absurd (omega arith)
decode_loop-IsDecoded (suc fuel) limit (token ∷ ip) buf enough h short =
    go (decode_sequence limit token ip buf)
      (decode_sequence-IsStep limit token ip buf h (omega arith))
      (λ ip' buf' shorter h'.
        decode_loop-IsDecoded fuel limit ip' buf' (omega arith) h' (omega (arith, shorter, short)))
  where
    go :
        (r : Outcome Error Step)
        → IsStep limit (length ip) r
        → ((ip' buf' : List ℕ)
            → length ip' ≤ length ip
            → length buf' ≤ limit
            → IsDecoded limit (decode_loop fuel limit ip' buf'))
        → IsDecoded limit (elim r [
          | done (last buf') ↦ done buf'
          | done (next ip' buf') ↦ decode_loop fuel limit ip' buf'
          | fails e ↦ fails e
          | stuck ↦ stuck
        ])
    go _ (is_last h') rec = is_done h'
    go _ (is_next {ip = ip'} {buf = buf'} h' shorter) rec = rec ip' buf' shorter h'
    go _ is_error rec = is_failure

produced-cases :
    (prefix : List ℕ) (dst_cap : ℕ) (r : Outcome Error (List ℕ))
    → IsDecoded (length prefix + dst_cap) r
    → ((out : List ℕ) × (produced prefix r ≡ done out) × (length out ≤ dst_cap))
      ⊎ ((e : Error) × (produced prefix r ≡ fails e))
produced-cases prefix dst_cap _ (is_done {buf = buf} h) =
    inl (drop (length prefix) buf, refl, omega (arith, length-drop (length prefix) buf))
produced-cases prefix dst_cap _ (is_failure {e = e}) = inr (e, refl)

pub block_decompress_with_prefix_total :
    (prefix src : List ℕ) (dst_cap : ℕ)
    → length src ≤ 8421504
    → ((out : List ℕ) × (block_decompress_with_prefix prefix dst_cap src ≡ done out)
        × (length out ≤ dst_cap))
      ⊎ ((e : Error) × (block_decompress_with_prefix prefix dst_cap src ≡ fails e))
unfolding block_decompress_with_prefix
block_decompress_with_prefix_total prefix src dst_cap few = produced-cases prefix dst_cap _ (
    decode_loop-IsDecoded (length src) (length prefix + dst_cap) src prefix (omega arith)
      (omega arith) (omega (arith, few)))
