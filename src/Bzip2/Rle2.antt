-- ===== src/Bzip2/Rle2.antt =====
-- src/bzip2/bzip2_compress.cpp, rle2_encode, and phase 1 of decode_block in
-- src/bzip2/bzip2_decompress.cpp, over the symbols that the Huffman decoder gives.
pub mod Moves
pub mod Runs
pub mod RoundTrip
use orot.Base.{
  ℕ, zero, suc, ◌+◌, ◌-◌, ◌*◌, ◌/◌, ◌%◌, ◌^◌, List, [], ◌∷◌, ◌++◌, Bool, true, false, length,
  get_or, set, replicate, ltb, leb, ◌==◌, if◌then◌else◌, update, Outcome, done, fails, stuck,
}
use orot.Bzip2.Mtf.{move_to_front}

-- BZ2_BLOCK_MAX, the length of ll and tt.
abbrev pub block_max : ℕ
block_max = 900001

-- emit_run: while (r > 0) { --r; push_back(r & 1); r >>= 1; }, with as much fuel as the run.
unfoldable pub run_digits : ℕ → ℕ → List ℕ
run_digits zero r = []
run_digits (suc fuel) zero = []
run_digits (suc fuel) (suc r) = (if r % 2 == 1 then 1 else 0) ∷ run_digits fuel (r / 2)

unfoldable pub emit_run : ℕ → List ℕ
emit_run run = run_digits run run

-- The loop over the ranks, with the zeros counted so far.
unfoldable pub rle2_loop : List ℕ → ℕ → List ℕ
rle2_loop [] run = emit_run run
rle2_loop (rank ∷ mtf) run =
    let rest = rle2_loop mtf (if rank == 0 then run + 1 else 0) in
    if rank == 0 then rest else emit_run run ++ ((rank + 1) % 2 ^ 16 ∷ rest)

-- The end-of-block symbol is alpha_size - 1.
unfoldable pub rle2_encode : List ℕ → ℕ → List ℕ
rle2_encode mtf n_in_use =
    let alpha_size = n_in_use + 2 in rle2_loop mtf 0 ++ ((alpha_size - 1) ∷ [])

-- for (int k = pos; k > 0; --k) order[k] = order[k - 1].
unfoldable pub shift_up : ℕ → List ℕ → List ℕ
shift_up zero syms = syms
shift_up (suc k) syms = shift_up k (set syms (suc k) (get_or syms k 0))

-- mtf_move_to_front: the cases 1 to 8 of the switch are the loop, written out.
unfoldable pub mtf_move_to_front : List ℕ → ℕ → ℕ → List ℕ
mtf_move_to_front mtf_sym rank c =
    if rank == 0
    then mtf_sym
    else if leb rank 8
    then set (shift_up rank mtf_sym) 0 c
    else move_to_front mtf_sym rank c

-- `return false`, or a write behind the end of ll.
pub data Error : Type 0 where
  refused overruns : Error

-- The state of phase 1; `ll` are the first nblock bytes of the buffer.
pub record Block : Type 0 where
  pub ll : List ℕ
  pub nblock : ℕ
  pub mtf_sym : List ℕ
  pub unzftab : ℕ → ℕ
  pub run : ℕ
  pub run_mul : ℕ

unfoldable pub start_block : List ℕ → Block
start_block syms = record {
  ll = [];
  nblock = 0;
  mtf_sym = syms;
  unzftab = λ c. 0;
  run = 0;
  run_mul = 1;
}

-- run += (sym + 1) * run_mul; run_mul <<= 1, on uint32_t.
unfoldable pub add_run : Block → ℕ → Block
add_run b sym = record b {
  run = (b.run + (sym + 1) * b.run_mul) % 2 ^ 32;
  run_mul = b.run_mul * 2 % 2 ^ 32;
}

-- fill_n(ll + nblock, run, uc), and what follows it.
unfoldable pub fill_run : Block → Block
fill_run b =
    let uc = get_or b.mtf_sym 0 0 in
    record b {
      ll = b.ll ++ replicate b.run uc;
      unzftab = update b.unzftab uc ((b.unzftab uc + b.run) % 2 ^ 32);
      nblock = (b.nblock + b.run) % 2 ^ 32;
      run = 0;
      run_mul = 1;
    }

-- The pending run, before any other symbol. The sum nblock + run is a uint32_t.
unfoldable pub flush_run : Block → Outcome Error Block
flush_run b =
    if ltb 0 b.run
    then (if ltb block_max ((b.nblock + b.run) % 2 ^ 32)
        then fails Error.refused
        else if ltb block_max (b.nblock + b.run)
        then fails Error.overruns
        else done (fill_run b))
    else done b

-- The byte of a rank goes to ll and to the front of the symbols.
unfoldable pub place_byte : Block → ℕ → Block
place_byte b rank =
    let uc = get_or b.mtf_sym rank 0 in
    record b {
      mtf_sym = mtf_move_to_front b.mtf_sym rank uc;
      ll = b.ll ++ (uc ∷ []);
      nblock = b.nblock + 1;
      unzftab = update b.unzftab uc ((b.unzftab uc + 1) % 2 ^ 32);
    }

-- A symbol above RUNB: its rank is sym - 1 as a uint8_t.
unfoldable pub put_symbol : ℕ → Block → ℕ → Outcome Error Block
put_symbol n_in_use b sym =
    let rank = (sym - 1) % 256 in
    if leb n_in_use rank
    then fails Error.refused
    else if leb block_max b.nblock
    then fails Error.refused
    else done (place_byte b rank)

-- What a turn of the loop comes to: the next turn, or the end of the block.
pub data Next : Type 0 where
  turn finished : Block → Next

unfoldable pub and_then : {A B : Type 0} → Outcome Error A → (A → Outcome Error B) → Outcome Error B
and_then (done a) next = next a
and_then (fails e) next = fails e
and_then stuck next = stuck

-- What is done with a symbol.
unfoldable pub symbol_step : ℕ → Block → ℕ → Outcome Error Next
symbol_step n_in_use b sym =
    if leb sym 1
    then done (turn (add_run b sym))
    else and_then (flush_run b) (λ b'.
      if sym == n_in_use + 1
      then done (finished b')
      else and_then (put_symbol n_in_use b' sym) (λ b''. done (turn b'')))

unfoldable pub go_on : (Block → Outcome Error Block) → Next → Outcome Error Block
go_on loop (turn b) = loop b
go_on loop (finished b) = done b

-- The loop of phase 1. When the symbols run out, the Huffman decoder has failed.
unfoldable pub decode_symbols : ℕ → List ℕ → Block → Outcome Error Block
decode_symbols n_in_use [] b = fails Error.refused
decode_symbols n_in_use (sym ∷ syms) b =
    and_then (symbol_step n_in_use b sym) (go_on (decode_symbols n_in_use syms))
