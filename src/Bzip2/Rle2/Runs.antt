-- ===== src/Bzip2/Rle2/Runs.antt =====
-- Phase 1 of decode_block in src/bzip2/bzip2_decompress.cpp on the symbols of one run, and on the
-- symbol behind it.
use orot.Base.{
  count, count-append, count-le, count-replicate, length-replicate, ℕ, zero, suc, ◌+◌, ◌-◌, ◌*◌,
  ◌/◌, ◌%◌, ◌^◌, ◌≤◌, ◌<◌, ◌≡◌, refl, sym, ap, ◌∙◌, List, [], ◌∷◌, ◌++◌, true, arith, length,
  get_or, replicate, leb, ◌==◌, if◌then◌else◌, update, if-both, done, length-append, append-nil,
  lt-leb, lt→ltb, ge-ltb, ==_iff, ne-==,
}
use orot.Bzip2.Mtf.{decode}
use orot.Bzip2.Rle2.{
  Block, block_max, run_digits, emit_run, add_run, fill_run, place_byte, flush_run, put_symbol,
  and_then, decode_symbols, symbol_step, go_on,
}
use orot.Bzip2.Rle2.Moves.{mtf_move_to_front-decode}

-- Between two runs: what the block has put out, with its counts, and no pending run.
pub record IsClean (out syms : List ℕ) (b : Block) : Type 0 where
  pub output : b.ll ≡ out
  pub size : b.nblock ≡ length out
  pub order : b.mtf_sym ≡ syms
  pub counts : (c : ℕ) → b.unzftab c ≡ count c out
  pub no_run : b.run ≡ 0
  pub unit : b.run_mul ≡ 1

abbrev with_run : Block → ℕ → ℕ → Block
with_run b run mul = record b { run = run; run_mul = mul }

decode_digit :
    (n d : ℕ) (syms : List ℕ) (b : Block) (a m : ℕ)
    → d ≤ 1
    → a + (d + 1) * m < 2 ^ 31
    → m < 2 ^ 31
    → decode_symbols n (d ∷ syms) (with_run b a m)
      ≡ decode_symbols n syms (with_run b (a + (d + 1) * m) (m * 2))
unfolding decode_symbols add_run symbol_step and_then go_on
decode_digit n d syms b a m le small small' =
    let e : leb d 1 ≡ true = ground arith in
    let e' : (a + (d + 1) * m) % 2 ^ 32 ≡ a + (d + 1) * m = omega arith in
    let e'' : m * 2 % 2 ^ 32 ≡ m * 2 = omega arith in rw (e, e', e'') refl

-- A digit and twice the rest make the run.
digit_sum : (m r d h : ℕ) → r ≡ 2 * h + d → d ≤ 1 → m * suc r ≡ (d + 1) * m + m * 2 * h
digit_sum m r zero h e le = rw e (grind arith)
digit_sum m r (suc d) h e le = let e' : d ≡ 0 = omega arith in rw (e, e') (grind arith)

no_digits : (fuel : ℕ) → run_digits fuel 0 ≡ []
unfolding run_digits
no_digits zero = refl
no_digits (suc fuel) = refl

-- The digits of a run add up to it; `m'` is the weight that is left behind them.
decode_run :
    (fuel r n : ℕ) (syms : List ℕ) (b : Block) (a m : ℕ)
    → r ≤ fuel
    → a + m * r < 2 ^ 31
    → (m' : ℕ) × (decode_symbols n (run_digits fuel r ++ syms) (with_run b a m)
        ≡ decode_symbols n syms (with_run b (a + m * r) m'))
      × (r ≡ 0 → m' ≡ m)
unfolding run_digits
decode_run fuel zero n syms b a m le small =
    let e : a ≡ a + m * 0 = omega arith in
    (
      m,
      ap (λ t. decode_symbols n (t ++ syms) (with_run b a m)) (no_digits fuel)
          ∙ ap (λ t. decode_symbols n syms (with_run b t m)) e,
      λ z. refl,
    )
decode_run zero (suc r) n syms b a m le small = absurd (omega arith)
decode_run (suc fuel) (suc r) n syms b a m le small =
    let d : ℕ = if r % 2 == 1 then 1 else 0 in
    let h : ℕ = r / 2 in
    let e : d ≡ r % 2 = ground arith in
    let s = digit_sum m r d h (omega (arith, e)) (omega (arith, e)) in
    let first : m * suc r ≡ m + m * r = grind arith in
    let step =
      decode_digit n d (run_digits fuel h ++ syms) b a m (omega (arith, e)) (omega (arith, s))
        (omega (arith, first)) in
    let (m', e', z) =
      decode_run fuel h n syms b (a + (d + 1) * m) (m * 2) (omega arith) (omega (arith, s)) in
    let e'' : a + (d + 1) * m + m * 2 * h ≡ a + m * suc r = omega (arith, s) in
    (
      m',
      step ∙ e' ∙ ap (λ t. decode_symbols n syms (with_run b t m')) e'',
      λ z'. absurd (omega arith),
    )

-- The byte that a fill writes and its counts.
filled_counts :
    (out : List ℕ) (counts : ℕ → ℕ) (x r c : ℕ)
    → ((y : ℕ) → counts y ≡ count y out)
    → length out + r ≤ block_max
    → update counts x ((counts x + r) % 2 ^ 32) c ≡ count c (out ++ replicate r x)
filled_counts out counts x r c e le =
    if-both (λ t. t ≡ count c (out ++ replicate r x)) (c == x) _ _
      (λ h.
        let at : c ≡ x = (==_iff c x).0 h in
        let swap : (x == c) ≡ true = (==_iff x c).1 (sym at) in
        let sum : count c (replicate r x) ≡ r = count-replicate c x r ∙ rw swap refl in
        omega (
          arith,
          e x,
          ap (λ y. count y out) at,
          sum,
          count-append c out (replicate r x),
          count-le c out,
        ))
      (λ h.
        let sum : count c (replicate r x) ≡ 0 = ground (arith, count-replicate c x r) in
        omega (arith, e c, sum, count-append c out (replicate r x)))

filled-IsClean :
    (out syms : List ℕ) (b : Block) (r m : ℕ)
    → IsClean out syms b
    → length out + r ≤ block_max
    → IsClean (out ++ replicate r (get_or syms 0 0)) syms (fill_run (with_run b r m))
unfolding fill_run
filled-IsClean out syms b r m h le =
    let head : get_or b.mtf_sym 0 0 ≡ get_or syms 0 0 = ap (λ t. get_or t 0 0) h.order in
    record {
      output = rw head (ap (λ t. t ++ replicate r (get_or syms 0 0)) h.output);
      size = omega (
        arith,
        h.size,
        length-append out (replicate r (get_or syms 0 0)),
        length-replicate r (get_or syms 0 0),
      );
      order = h.order;
      counts = λ c. rw head (filled_counts out b.unzftab (get_or syms 0 0) r c h.counts le);
      no_run = refl;
      unit = refl;
    }

-- The pending run is put out, and nothing else.
flush_run_lem :
    (out syms : List ℕ) (b : Block) (r m : ℕ)
    → IsClean out syms b
    → length out + r ≤ block_max
    → (r ≡ 0 → m ≡ 1)
    → (b' : Block) × (flush_run (with_run b r m) ≡ done b')
      × IsClean (out ++ replicate r (get_or syms 0 0)) syms b'
unfolding flush_run
flush_run_lem out syms b zero m h le unit = (
  with_run b 0 m,
  refl,
  record {
    output = h.output ∙ sym (append-nil out);
    size = h.size ∙ ap length (sym (append-nil out));
    order = h.order;
    counts = λ c. h.counts c ∙ ap (count c) (sym (append-nil out));
    no_run = refl;
    unit = unit refl;
  },
)
flush_run_lem out syms b (suc r) m h le unit = (
  fill_run (with_run b (suc r) m),
  rw
      (
        lt→ltb 0 (suc r) (omega arith),
        ge-ltb block_max ((b.nblock + suc r) % 2 ^ 32) (omega (arith, h.size)),
        ge-ltb block_max (b.nblock + suc r) (omega (arith, h.size)),
      )
      refl,
  filled-IsClean out syms b (suc r) m h le,
)

-- The symbol of a rank above zero.
put_symbol_lem :
    (out syms : List ℕ) (b : Block) (rank : ℕ)
    → IsClean out syms b
    → rank < length syms
    → length syms ≤ 256
    → length out < block_max
    → (b' : Block) × (put_symbol (length syms) b (rank + 1) ≡ done b')
      × IsClean (out ++ (get_or syms rank 0 ∷ [])) (decode rank syms).1 b'
unfolding put_symbol place_byte
put_symbol_lem out syms b rank h lt le room =
    let e : (rank + 1 - 1) % 256 ≡ rank = omega arith in
    let at : get_or b.mtf_sym rank 0 ≡ get_or syms rank 0 = ap (λ t. get_or t rank 0) h.order in
    let moved = ap (λ p. p.1) (mtf_move_to_front-decode rank syms lt) in
    (
      place_byte b rank,
      rw (e, lt-leb (length syms) rank lt, lt-leb block_max b.nblock (omega (arith, h.size))) refl,
      record {
        output = rw at (ap (λ t. t ++ (get_or syms rank 0 ∷ [])) h.output);
        size = omega (arith, h.size, length-append out (get_or syms rank 0 ∷ []));
        order = rw (at, h.order) (sym moved);
        counts = λ c.
            rw at (filled_counts out b.unzftab (get_or syms rank 0) 1 c h.counts (omega arith));
        no_run = h.no_run;
        unit = h.unit;
      },
    )

-- The symbols of a run leave a state whose flush puts the run out.
decode_emit_run :
    (out syms more : List ℕ) (b : Block) (n r : ℕ)
    → IsClean out syms b
    → length out + r ≤ block_max
    → (s : Block) × (decode_symbols n (emit_run r ++ more) b ≡ decode_symbols n more s)
      × (b' : Block) × (flush_run s ≡ done b')
      × IsClean (out ++ replicate r (get_or syms 0 0)) syms b'
unfolding emit_run
decode_emit_run out syms more b n r h le =
    let (m, digits, unit) = decode_run r r n more b 0 1 (omega arith) (omega arith) in
    let e : 0 + 1 * r ≡ r = omega arith in
    let start : with_run b 0 1 ≡ b =
      ap (λ t. with_run b t 1) (sym h.no_run) ∙ ap (λ t. with_run b b.run t) (sym h.unit) in
    let found = flush_run_lem out syms b r m h le unit in
    (
      with_run b r m,
      ap (λ t. decode_symbols n (run_digits r r ++ more) t) (sym start)
          ∙ digits
          ∙ ap (λ t. decode_symbols n more (with_run b t m)) e,
      found.0,
      found.1,
      found.2,
    )

-- The symbols of a run and of the rank behind it.
pub decode_ranked :
    (out syms more : List ℕ) (b : Block) (r rank : ℕ)
    → IsClean out syms b
    → 0 < rank
    → rank < length syms
    → length syms ≤ 256
    → length out + r < block_max
    → (b' : Block) × (decode_symbols (length syms) (emit_run r ++ ((rank + 1) ∷ more)) b
        ≡ decode_symbols (length syms) more b')
      × IsClean
          ((out ++ replicate r (get_or syms 0 0)) ++ (get_or syms rank 0 ∷ []))
          (decode rank syms).1
          b'
unfolding decode_symbols symbol_step and_then go_on
decode_ranked out syms more b r rank h pos lt le room =
    let (s, e, b', flushed, clean) =
      decode_emit_run out syms ((rank + 1) ∷ more) b (length syms) r h (omega arith) in
    let (b'', put, clean') =
      put_symbol_lem (out ++ replicate r (get_or syms 0 0)) syms b' rank clean lt le (
        omega (
          arith,
          length-append out (replicate r (get_or syms 0 0)),
          length-replicate r (get_or syms 0 0),
        )) in
    (
      b'',
      e
          ∙ rw
              (
                lt-leb (rank + 1) 1 (omega arith),
                flushed,
                ne-== (rank + 1) (length syms + 1) (omega arith),
                put,
              )
              refl,
      clean',
    )

-- The symbols of the last run and of the end of the block.
pub decode_last :
    (out syms : List ℕ) (b : Block) (r : ℕ)
    → IsClean out syms b
    → 0 < length syms
    → length out + r ≤ block_max
    → (b' : Block) × (decode_symbols (length syms) (emit_run r ++ ((length syms + 1) ∷ [])) b
        ≡ done b')
      × IsClean (out ++ replicate r (get_or syms 0 0)) syms b'
unfolding decode_symbols symbol_step and_then go_on
decode_last out syms b r h pos room =
    let (s, e, b', flushed, clean) =
      decode_emit_run out syms ((length syms + 1) ∷ []) b (length syms) r h room in
    (
      b',
      e
          ∙ rw
              (
                lt-leb (length syms + 1) 1 (omega arith),
                flushed,
                (==_iff (length syms + 1) (length syms + 1)).1 refl,
              )
              refl,
      clean,
    )
