-- ===== src/Bzip2/Tests.antt =====
-- Runs of src/bzip2 on small inputs, and the theorem at a concrete input.
use orot.Base.{
  count, ◌≤◌, ◌*◌, ◌++◌, replicate, done, fails, some, ℕ, ◌<◌, ◌≡◌, refl, inl, inr, List, [], ◌∷◌,
  arith, length, All,
}
use orot.Bzip2.Mtf.{
  IsIn, find_rank, move_to_front, encode, rank_byte, encode_all, mtf_encode_inuse, mtf_decode_inuse,
  mtf_decode_inuse-mtf_encode_inuse,
}
use orot.Bzip2.Rle1.{count_run, run_bytes, rle1_loop, rle1_encode, Mode, expand}
use orot.Bzip2.Rle1.RoundTrip.{expand-rle1_encode}
use orot.Bzip2.Rle1.Bounds.{length-rle1_encode}
use orot.Bzip2.Rle2
use orot.Bzip2.Rle2.{
  Block, run_digits, emit_run, rle2_loop, rle2_encode, start_block, add_run, fill_run, flush_run,
  place_byte, put_symbol, and_then, symbol_step, go_on, decode_symbols,
}
use orot.Bzip2.Rle2.RoundTrip.{decode_symbols-rle2_encode}

abbrev symbols : List ℕ
symbols = 97 ∷ 98 ∷ 110 ∷ []

abbrev banana : List ℕ
banana = 98 ∷ 97 ∷ 110 ∷ 97 ∷ 110 ∷ 97 ∷ []

banana_ranks : mtf_encode_inuse banana symbols ≡ 1 ∷ 1 ∷ 2 ∷ 1 ∷ 1 ∷ 1 ∷ []
unfolding mtf_encode_inuse encode_all encode rank_byte move_to_front find_rank
banana_ranks = refl

banana-IsIn : All (λ c. IsIn c symbols) banana
banana-IsIn = (is_b, (is_a, (is_n, (is_a, (is_n, (is_a, tt))))))
  where
    is_a : IsIn 97 symbols
    is_a = inl refl

    is_b : IsIn 98 symbols
    is_b = inr (inl refl)

    is_n : IsIn 110 symbols
    is_n = inr (inr (inl refl))

mtf_decode_inuse-mtf_encode_inuse_example :
    (mtf_decode_inuse (mtf_encode_inuse banana symbols) symbols ≡ banana)
    × All (λ rank. rank < length symbols) (mtf_encode_inuse banana symbols)
mtf_decode_inuse-mtf_encode_inuse_example =
    mtf_decode_inuse-mtf_encode_inuse banana symbols banana-IsIn (omega arith)

abbrev runs : List ℕ
runs = 7 ∷ 7 ∷ 7 ∷ 7 ∷ 7 ∷ 7 ∷ 5 ∷ 5 ∷ []

runs_encoded : rle1_encode runs ≡ 7 ∷ 7 ∷ 7 ∷ 7 ∷ 2 ∷ 5 ∷ 5 ∷ []
unfolding rle1_encode rle1_loop run_bytes count_run
runs_encoded = refl

-- A run of exactly four bytes takes five.
four_encoded : length (rle1_encode (3 ∷ 3 ∷ 3 ∷ 3 ∷ [])) ≡ 5
unfolding rle1_encode rle1_loop run_bytes count_run
four_encoded = refl

expand-rle1_encode_example : expand 8 (rle1_encode runs) (Mode.counting 0 0) [] ≡ some runs
expand-rle1_encode_example = expand-rle1_encode 8 runs (omega arith)

length-rle1_encode_example : 4 * length (rle1_encode runs) ≤ 5 * length runs
length-rle1_encode_example = length-rle1_encode runs

runs_symbols : rle2_encode (0 ∷ 0 ∷ 0 ∷ 2 ∷ 0 ∷ []) 3 ≡ 0 ∷ 0 ∷ 3 ∷ 0 ∷ 4 ∷ []
unfolding rle2_encode rle2_loop emit_run run_digits
runs_symbols = refl

decode_symbols-rle2_encode_example :
    (b : Block) × (decode_symbols 3
        (rle2_encode (mtf_encode_inuse banana symbols) 3)
        (start_block symbols)
      ≡ done b)
    × (b.ll ≡ banana)
    × (b.nblock ≡ length banana)
    × ((c : ℕ) → b.unzftab c ≡ count c banana)
decode_symbols-rle2_encode_example =
    decode_symbols-rle2_encode banana symbols banana-IsIn (omega arith) (omega arith) (omega arith)

-- A byte and a run of 2 ^ 32 - 1: the sum with nblock is 0 on a uint32_t, so that the run is written.
run_overruns :
    decode_symbols 3 (2 ∷ (replicate 32 0 ++ (4 ∷ []))) (start_block symbols)
    ≡ fails Rle2.Error.overruns
unfolding decode_symbols symbol_step go_on and_then put_symbol place_byte flush_run fill_run add_run
    start_block
run_overruns = refl
