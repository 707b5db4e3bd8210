-- ===== src/Bzip2/Rle2/RoundTrip.antt =====
-- Phase 1 of decode_block in src/bzip2/bzip2_decompress.cpp on what mtf_encode_inuse and rle2_encode
-- of src/bzip2/bzip2_compress.cpp give.
use orot.Base.{
  count, length-replicate, ℕ, zero, suc, ◌+◌, ◌-◌, ◌%◌, ◌^◌, ◌≤◌, ◌<◌, ◌≡◌, refl, sym, ap, subst,
  ◌∙◌, List, [], ◌∷◌, ◌++◌, arith, length, get_or, replicate, All, done, append_assoc, append-nil,
  ◌==◌, length-append, ne-==, if-both,
}
use orot.Bzip2.Mtf.{
  IsIn, encode, encode_all, decode, decode_all, length-move_to_front, mtf_encode_inuse,
  mtf_decode_inuse, mtf_decode_inuse-mtf_encode_inuse,
}
use orot.Bzip2.Rle2.{
  Block, block_max, emit_run, rle2_loop, rle2_encode, start_block, decode_symbols,
}
use orot.Bzip2.Rle2.Moves.{mtf_move_to_front-decode}
use orot.Bzip2.Rle2.Runs.{IsClean, decode_ranked, decode_last}

length-decode :
    (rank : ℕ) (syms : List ℕ) → rank < length syms → length (decode rank syms).1 ≡ length syms
unfolding decode
length-decode rank syms lt =
    if-both (λ (p : ℕ × List ℕ). length p.1 ≡ length syms) (rank == 0) _ _ (λ e. refl)
      (λ e. length-move_to_front syms (get_or syms rank 0) rank lt)

replicate_more : (n c : ℕ) (ys : List ℕ) → replicate (n + 1) c ++ ys ≡ replicate n c ++ (c ∷ ys)
replicate_more zero c ys = refl
replicate_more (suc n) c ys =
    let e : suc n + 1 ≡ suc (n + 1) = omega arith in rw e (ap (◌∷◌ c) (replicate_more n c ys))

decode-byte :
    (rank : ℕ) (syms : List ℕ) → rank < length syms → (decode rank syms).0 ≡ get_or syms rank 0
decode-byte rank syms lt = ap (λ p. p.0) (mtf_move_to_front-decode rank syms lt)

rle2_loop_ranked :
    (k : ℕ) (ranks : List ℕ) (r : ℕ)
    → suc k < 256
    → rle2_loop (suc k ∷ ranks) r ≡ emit_run r ++ ((suc k + 1) ∷ rle2_loop ranks 0)
unfolding rle2_loop
rle2_loop_ranked k ranks r lt =
    let e : (suc k + 1) % 2 ^ 16 ≡ suc k + 1 = omega arith in
    rw (ne-== (suc k) 0 (omega arith), e) refl

-- Some clean state in which the symbols are decoded, and what it has put out.
abbrev Decodes : ℕ → List ℕ → Block → List ℕ → Type 0
Decodes n symbols b out =
    (b' : Block) × (decode_symbols n symbols b ≡ done b') × (final : List ℕ) × IsClean out final b'

-- From a clean state: with `r` zeros counted, the symbols of the remaining ranks.
decode_rle2_loop :
    (ranks : List ℕ) (r : ℕ) (out syms : List ℕ) (b : Block)
    → IsClean out syms b
    → All (λ rank. rank < length syms) ranks
    → 0 < length syms
    → length syms ≤ 256
    → length out + r + length ranks ≤ block_max
    → Decodes
        (length syms)
        (rle2_loop ranks r ++ ((length syms + 1) ∷ []))
        b
        (out ++ (replicate r (get_or syms 0 0) ++ decode_all ranks syms))
unfolding rle2_loop decode_all decode
decode_rle2_loop [] r out syms b h small pos le room =
    let (b', e, clean) = decode_last out syms b r h pos (omega arith) in
    (
      b',
      e,
      syms,
      subst (λ t. IsClean (out ++ t) syms b') (sym (append-nil (replicate r (get_or syms 0 0))))
          clean,
    )
decode_rle2_loop (zero ∷ ranks) r out syms b h small pos le room =
    let (b', e, final, clean) =
      decode_rle2_loop ranks (r + 1) out syms b h small.1 pos le (omega arith) in
    (
      b',
      e,
      final,
      subst (λ t. IsClean (out ++ t) final b')
          (replicate_more r (get_or syms 0 0) (decode_all ranks syms)) clean,
    )
decode_rle2_loop (suc k ∷ ranks) r out syms b h small pos le room =
    let lt : suc k < length syms = small.0 in
    let run = replicate r (get_or syms 0 0) in
    let c = get_or syms (suc k) 0 in
    let syms' = (decode (suc k) syms).1 in
    let size = length-decode (suc k) syms lt in
    let (b', e, clean) =
      decode_ranked out syms (rle2_loop ranks 0 ++ ((length syms + 1) ∷ [])) b r (suc k) h
        (omega arith) lt le (omega arith) in
    let rest : Decodes (length syms') (rle2_loop ranks 0 ++ ((length syms' + 1) ∷ [])) b'
        (((out ++ run) ++ (c ∷ [])) ++ (replicate 0 (get_or syms' 0 0) ++ decode_all ranks syms')) =
      decode_rle2_loop ranks 0 ((out ++ run) ++ (c ∷ [])) syms' b' clean
        (subst (λ n. All (λ rank. rank < n) ranks) (sym size) small.1) (omega (arith, size))
        (omega (arith, size))
        (omega (
          arith,
          length-append (out ++ run) (c ∷ []),
          length-append out run,
          length-replicate r (get_or syms 0 0),
        )) in
    let (b'', e', final, clean') =
      subst
        (λ n. Decodes n (rle2_loop ranks 0 ++ ((n + 1) ∷ [])) b' (
          ((out ++ run) ++ (c ∷ [])) ++ (replicate 0 (get_or syms' 0 0) ++ decode_all ranks syms')))
        size rest in
    (
      b'',
      ap (λ t. decode_symbols (length syms) (t ++ ((length syms + 1) ∷ [])) b)
            (rle2_loop_ranked k ranks r (omega arith))
          ∙ ap (λ t. decode_symbols (length syms) t b)
              (append_assoc (emit_run r) ((suc k + 1) ∷ rle2_loop ranks 0) ((length syms + 1) ∷ []))
          ∙ e
          ∙ e',
      final,
      subst (λ t. IsClean t final b'')
          (append_assoc (out ++ run) (c ∷ []) (decode_all ranks syms')
            ∙ append_assoc out run (c ∷ decode_all ranks syms')
            ∙ ap (λ t. out ++ (run ++ (t ∷ decode_all ranks syms')))
                (sym (decode-byte (suc k) syms lt)))
          clean',
    )

start-IsClean : (syms : List ℕ) → IsClean [] syms (start_block syms)
unfolding start_block
start-IsClean syms = record {
  output = refl;
  size = refl;
  order = refl;
  counts = λ c. refl;
  no_run = refl;
  unit = refl;
}

length-encode_all : (bytes syms : List ℕ) → length (encode_all bytes syms) ≡ length bytes
unfolding encode_all
length-encode_all [] syms = refl
length-encode_all (c ∷ bytes) syms = omega (arith, length-encode_all bytes (encode c syms).1)

-- Phase 1 takes the symbols of a block back to its bytes, with their number and with the count of
-- each byte, for a block of at most 900,001 bytes that are all in use and a list of 1 to 256 symbols.
pub decode_symbols-rle2_encode :
    (bytes inuse_syms : List ℕ)
    → All (λ c. IsIn c inuse_syms) bytes
    → 0 < length inuse_syms
    → length inuse_syms ≤ 256
    → length bytes ≤ block_max
    → (b : Block) × (decode_symbols
          (length inuse_syms)
          (rle2_encode (mtf_encode_inuse bytes inuse_syms) (length inuse_syms))
          (start_block inuse_syms)
        ≡ done b)
      × (b.ll ≡ bytes)
      × (b.nblock ≡ length bytes)
      × ((c : ℕ) → b.unzftab c ≡ count c bytes)
unfolding rle2_encode mtf_encode_inuse mtf_decode_inuse
decode_symbols-rle2_encode bytes syms used pos le room =
    let (back, small) = mtf_decode_inuse-mtf_encode_inuse bytes syms used le in
    let (b, e, final, clean) =
      decode_rle2_loop (encode_all bytes syms) 0 [] syms (start_block syms) (start-IsClean syms)
        small pos le (omega (arith, length-encode_all bytes syms)) in
    let eob : length syms + 2 - 1 ≡ length syms + 1 = omega arith in
    let clean' = subst (λ t. IsClean t final b) back clean in
    (
      b,
      ap
            (λ t.
              decode_symbols (length syms) (rle2_loop (encode_all bytes syms) 0 ++ (t ∷ []))
                (start_block syms))
            eob
          ∙ e,
      clean'.output,
      clean'.size,
      clean'.counts,
    )
