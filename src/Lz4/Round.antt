-- ===== src/Lz4/Round.antt =====
-- The scan of lz4_block_compress: what it has written decodes to what it has passed.
use orot.Base.{
  ℕ, zero, suc, ◌+◌, ◌-◌, ◌*◌, ◌^◌, ◌≤◌, ◌<◌, ◌≡◌, refl, sym, ap, ◌∙◌, bit_or, List, [], ◌∷◌, ◌++◌,
  done, arith, length, get_or, take, drop, length-append, length-take, length-drop, take_snoc,
  get_or-take, take_slice, take-append-drop, append_assoc, append-nil,
}
use orot.Lz4.Block.{
  last, next, copy_match, decode_sequence, decode_loop, literal_nibble, match_nibble,
}
use orot.Lz4.Copy.{copy_bytes, copy_match-copy_bytes}
use orot.Lz4.Sequence.{
  extra_bytes, match_bytes, tail_bytes, sequence_bytes, decode_sequence-match, decode_sequence_last,
}
use orot.Lz4.Match.{IsMatch}

-- A copy from the source's own past is the source.
copy_bytes-take :
    (n p offset : ℕ) (src : List ℕ)
    → 1 ≤ offset
    → offset ≤ p
    → p + n ≤ length src
    → ((i : ℕ) → i < n → get_or src (p + i) 0 ≡ get_or src (p - offset + i) 0)
    → copy_bytes offset n (take p src) ≡ take (p + n) src
unfolding copy_bytes
copy_bytes-take zero p offset src pos le fits same = ap (λ k. take k src) (omega arith)
copy_bytes-take (suc n) p offset src pos le fits same =
    ap (λ b. copy_bytes offset n (take p src ++ (b ∷ []))) byte
    ∙ ap (copy_bytes offset n) (sym (take_snoc p src 0 (omega arith)))
    ∙ copy_bytes-take n (suc p) offset src pos (omega arith) (omega arith) later
    ∙ ap (λ k. take k src) (omega arith)
  where
    at_length : length (take p src) ≡ p
    at_length = omega (arith, length-take p src)

    byte : get_or (take p src) (length (take p src) - offset) 0 ≡ get_or src p 0
    byte =
        ap (λ k. get_or (take p src) (k - offset) 0) at_length
        ∙ get_or-take (p - offset) p src 0 (omega arith)
        ∙ (let e1 : p + 0 ≡ p = omega arith in
            let e2 : p - offset + 0 ≡ p - offset = omega arith in
            sym (rw (e1, e2) at (same 0 (omega arith))))

    later : (i : ℕ) → i < n → get_or src (suc p + i) 0 ≡ get_or src (suc p - offset + i) 0
    later i h =
        let e1 : p + suc i ≡ suc p + i = omega arith in
        let e2 : p - offset + suc i ≡ suc p - offset + i = omega arith in
        rw (e1, e2) at (same (suc i) (omega arith))

-- The decoder, started on `out` with more behind it, comes to the rest with `passed` in its buffer.
pub Decodes : List ℕ → List ℕ → Type 0
Decodes out passed =
    (limit fuel : ℕ) (rest : List ℕ)
    → length passed ≤ limit
    → length (out ++ rest) ≤ fuel
    → (f : ℕ) × (length rest ≤ f)
      × (decode_loop fuel limit (out ++ rest) [] ≡ decode_loop f limit rest passed)

pub Decodes-nil : Decodes [] []
unfolding Decodes
Decodes-nil limit fuel rest h le = (fuel, le, refl)

sequence_shape :
    (lits : List ℕ) (match_len offset : ℕ) (rest : List ℕ)
    → 4 ≤ match_len
    → sequence_bytes lits match_len offset ++ rest
      ≡ bit_or (literal_nibble (length lits) * 16) (match_nibble match_len)
        ∷ (extra_bytes (length lits) ++ (lits ++ (match_bytes match_len offset ++ rest)))
unfolding sequence_bytes tail_bytes
sequence_shape lits match_len offset rest h = ground (
  arith,
  append_assoc (extra_bytes (length lits)) (lits ++ match_bytes match_len offset) rest,
  append_assoc lits (match_bytes match_len offset) rest,
)

sequence_pos :
    (lits : List ℕ) (match_len offset : ℕ) → 0 < length (sequence_bytes lits match_len offset)
unfolding sequence_bytes
sequence_pos lits match_len offset = omega arith

last_shape :
    (lits : List ℕ)
    → sequence_bytes lits 0 0
      ≡ bit_or (literal_nibble (length lits) * 16) (match_nibble 0)
        ∷ (extra_bytes (length lits) ++ lits)
unfolding sequence_bytes tail_bytes
last_shape lits = simp append-nil

decode_loop-next :
    (fuel limit token : ℕ) (ip ip' buf buf' : List ℕ)
    → decode_sequence limit token ip buf ≡ done (next ip' buf')
    → decode_loop (suc fuel) limit (token ∷ ip) buf ≡ decode_loop fuel limit ip' buf'
unfolding decode_loop
decode_loop-next fuel limit token ip ip' buf buf' e = rw (e, decode_loop)

decode_loop_last :
    (fuel limit token : ℕ) (ip buf buf' : List ℕ)
    → decode_sequence limit token ip buf ≡ done (last buf')
    → decode_loop (suc fuel) limit (token ∷ ip) buf ≡ done buf'
unfolding decode_loop
decode_loop_last fuel limit token ip buf buf' e = rw (e, decode_loop)

-- One more sequence with a match.
pub Decodes-match :
    (out src : List ℕ) (anchor ip len offset : ℕ)
    → Decodes out (take anchor src)
    → anchor ≤ ip
    → IsMatch src ip len offset
    → length src < 2 ^ 31
    → Decodes
        (out ++ sequence_bytes (take (ip - anchor) (drop anchor src)) len offset)
        (take (ip + len) src)
unfolding Decodes
Decodes-match out src anchor ip len offset decodes le m small limit fuel rest fits enough =
    Decodes_match_step (
      decodes limit fuel (sequence_bytes lits len offset ++ rest)
        (omega (arith, length-take anchor src, length-take (ip + len) src))
        (omega (arith, ap length (append_assoc out (sequence_bytes lits len offset) rest))))
  where
    lits : List ℕ
    lits = take (ip - anchor) (drop anchor src)

    length_lits : length lits ≡ ip - anchor
    length_lits =
        omega (
          arith,
          length-take (ip - anchor) (drop anchor src),
          length-drop anchor src,
          m.before_tail,
        )

    length_passed : length (take anchor src) ≡ anchor
    length_passed = omega (arith, length-take anchor src, m.before_tail)

    joined : take anchor src ++ lits ≡ take ip src
    joined = take_slice anchor (ip - anchor) src ∙ ap (λ k. take k src) (omega arith)

    copied : copy_match offset len (take anchor src ++ lits) ≡ take (ip + len) src
    copied =
        ap (copy_match offset len) joined
        ∙ copy_match-copy_bytes offset len (take ip src) m.positive
            (omega (arith, length-take ip src, m.before_tail, m.behind))
        ∙ copy_bytes-take len ip offset src m.positive m.behind (omega (arith, m.before_tail))
            m.same

    Decodes_match_step :
        (f : ℕ) × (length (sequence_bytes lits len offset ++ rest) ≤ f)
          × (decode_loop fuel limit (out ++ (sequence_bytes lits len offset ++ rest)) []
              ≡ decode_loop f limit (sequence_bytes lits len offset ++ rest) (take anchor src))
        → (f : ℕ) × (length rest ≤ f)
          × (decode_loop fuel limit ((out ++ sequence_bytes lits len offset) ++ rest) []
              ≡ decode_loop f limit rest (take (ip + len) src))
    Decodes_match_step (zero, enough', e) =
        absurd (omega (arith, ap length (sequence_shape lits len offset rest m.long)))
    Decodes_match_step (suc f, enough', e) = (
      f,
      omega (arith, shorter),
      ap (λ v. decode_loop fuel limit v []) (append_assoc out (sequence_bytes lits len offset) rest)
          ∙ e
          ∙ ap (λ v. decode_loop (suc f) limit v (take anchor src))
              (sequence_shape lits len offset rest m.long)
          ∙ decode_loop-next f limit _ _ _ _ _ (
              decode_sequence-match limit offset len lits rest (take anchor src) m.long m.positive
                m.in_window (omega (arith, length_lits, length_passed, m.behind))
                (omega
                  (arith, length_lits, length_passed, length-take (ip + len) src, m.before_tail))
                (omega (arith, length_lits, m.before_tail)) (omega (arith, m.before_tail)))
          ∙ ap (decode_loop f limit rest) copied,
    )
      where
        shorter : length rest < length (sequence_bytes lits len offset ++ rest)
        shorter = omega (
          arith,
          length-append (sequence_bytes lits len offset) rest,
          sequence_pos lits len offset,
        )

-- The final sequence: the decoder stops with the whole source.
pub Decodes-last :
    (out src : List ℕ) (anchor limit fuel : ℕ)
    → Decodes out (take anchor src)
    → anchor ≤ length src
    → length src ≤ limit
    → length src < 2 ^ 31
    → length (out ++ sequence_bytes (drop anchor src) 0 0) ≤ fuel
    → decode_loop fuel limit (out ++ sequence_bytes (drop anchor src) 0 0) [] ≡ done src
unfolding Decodes
Decodes-last out src anchor limit fuel decodes le fits small enough = finish (
    decodes limit fuel (sequence_bytes (drop anchor src) 0 0)
      (omega (arith, length-take anchor src)) enough)
  where
    length_all : length (take anchor src) + length (drop anchor src) ≡ length src
    length_all = omega (arith, length-take anchor src, length-drop anchor src)

    finish :
        (f : ℕ) × (length (sequence_bytes (drop anchor src) 0 0) ≤ f)
          × (decode_loop fuel limit (out ++ sequence_bytes (drop anchor src) 0 0) []
              ≡ decode_loop f limit (sequence_bytes (drop anchor src) 0 0) (take anchor src))
        → decode_loop fuel limit (out ++ sequence_bytes (drop anchor src) 0 0) [] ≡ done src
    finish (zero, enough', e) = absurd (omega (arith, sequence_pos (drop anchor src) 0 0))
    finish (suc f, enough', e) =
        e
        ∙ ap (λ v. decode_loop (suc f) limit v (take anchor src)) (last_shape (drop anchor src))
        ∙ decode_loop_last f limit _ _ _ _ (
            decode_sequence_last limit (drop anchor src) (take anchor src)
              (omega (arith, length_all)) (omega (arith, length_all)))
        ∙ ap done (take-append-drop anchor src)
