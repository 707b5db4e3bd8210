-- ===== src/Lz4/Compress.antt =====
-- src/lz4/lz4_block.cpp, lz4_block_compress: the hash tables, the search for a match, and the scan.
-- Positions count from `src`; a read behind its end, which the code never makes, gives 0.
use orot.Base.{
  ℕ, zero, suc, ◌+◌, ◌-◌, ◌*◌, ◌/◌, ◌%◌, ◌^◌, Bool, false, not, ◌&&◌, ◌||◌, List, [], ◌∷◌, Option,
  none, some, Outcome, done, fails, stuck, or_fail, length, get_or, take, drop, ltb, leb, ◌==◌,
  if◌then◌else◌, update,
}
use orot.Simd.Match.{scalar_match_length}
use orot.Lz4.Block.{Config, Error, too_small, min_match, last_lit, last_match, emit_sequence}

-- LZ4State: the most recent position of each hash, and the previous position of its chain.
pub record Tables : Type 0 where
  pub head : ℕ → ℕ
  pub prev : ℕ → ℕ

-- reset_fast leaves `prev` as it was.
unfoldable pub reset : Config → Tables → Tables
reset cfg t = record { head = λ h. 0; prev = if cfg.fast_path then t.prev else (λ k. 0) }

-- best_len and best_offset.
pub record Best : Type 0 where
  pub len : ℕ
  pub offset : ℕ

pub record Scan : Type 0 where
  pub out : List ℕ
  pub anchor : ℕ
  pub ip : ℕ
  pub step_ctr : ℕ
  pub tables : Tables

module _ (cfg : Config) (src : List ℕ) where
  abbrev pub byte_at : ℕ → ℕ
  byte_at i = get_or src i 0

  abbrev pub word_at : ℕ → ℕ
  word_at i =
      byte_at i + 2 ^ 8 * byte_at (i + 1) + 2 ^ 16 * byte_at (i + 2) + 2 ^ 24 * byte_at (i + 3)

  unfoldable pub hash_at : ℕ → ℕ
  hash_at i = word_at i * 0x9E3779B1 % 2 ^ 32 / 2 ^ 16

  -- ip_abs - cpos in uint32_t. As an int it is at most 0, or more than 65535, just if it is 0 or more
  -- than 65535 here, but for the test at the end of a chain's round.
  abbrev pub distance : ℕ → ℕ → ℕ
  distance ip cpos = (ip + 2 ^ 32 - cpos) % 2 ^ 32

  abbrev pub match_length_at : ℕ → ℕ → ℕ
  match_length_at ip cpos =
      4
      + scalar_match_length (λ i. byte_at (ip + 4 + i)) (λ i. byte_at (cpos + 4 + i))
          (length src - last_lit - ip - 4)

  -- The lambda try_match: the best match so far, and whether it is good enough.
  unfoldable pub try_match : ℕ → ℕ → Best → Best × Bool
  try_match ip cpos best =
      if cpos == 0 && not (ip == 0)
      then (best, false)
      else if distance ip cpos == 0 || ltb 65535 (distance ip cpos)
      then (best, false)
      else if not (word_at ip == word_at cpos)
      then (best, false)
      else if ltb best.len (match_length_at ip cpos)
      then (
        record { len = match_length_at ip cpos; offset = distance ip cpos },
        leb cfg.nice_len (match_length_at ip cpos),
      )
      else (best, false)

  -- The chain traversal; the first argument is max_chain - steps.
  unfoldable pub follow_chain : ℕ → (ℕ → ℕ) → ℕ → ℕ → ℕ → Best → Best
  follow_chain zero prev ip cpos consec_miss best = best
  follow_chain (suc left) prev ip cpos consec_miss best =
      let found = try_match ip cpos best in
      let differs = not (word_at ip == word_at cpos) in
      let misses = if differs then consec_miss + 1 else consec_miss in
      let rest = follow_chain left prev ip (prev (cpos % 65536)) misses found.0 in
      if cpos == 0
      then best
      else if found.1
      then found.0
      else if differs && leb cfg.miss_limit misses
      then found.0
      else if ltb 65535 (distance ip cpos) && ltb (distance ip cpos) (2 ^ 31)
      then found.0
      else rest

  -- A position enters its bucket; in the chained mode the bucket's former position is its link.
  unfoldable pub insert : Tables → ℕ → Tables
  insert t i = record {
    head = update t.head (hash_at i) i;
    prev = if cfg.fast_path then t.prev else update t.prev (i % 65536) (t.head (hash_at i));
  }

  unfoldable pub search_match : Tables → ℕ → ℕ → Best
  search_match t ip candidate =
      if cfg.fast_path
      then (try_match ip candidate (record { len = 0; offset = 0 })).0
      else follow_chain cfg.max_chain t.prev ip candidate 0 (record { len = 0; offset = 0 })

  abbrev pub match_limit : ℕ
  match_limit = length src - last_match

  -- The insertion of covered positions; the first argument is fill_cap - fill.
  unfoldable pub fill_tables : ℕ → ℕ → ℕ → Tables → Tables
  fill_tables zero fill ip t = t
  fill_tables (suc left) fill ip t =
      let rest = fill_tables left (fill + 1) ip (insert t fill) in
      if ltb fill ip && ltb fill match_limit then rest else t

  abbrev pub slice : ℕ → ℕ → List ℕ
  slice from to = take (to - from) (drop from src)

  -- The step on a miss.
  unfoldable pub skip : Scan → Scan
  skip s =
      if cfg.fast_path
      then record s { ip = s.ip + s.step_ctr / 64; step_ctr = (s.step_ctr + 1) % 2 ^ 32 }
      else record s { ip = s.ip + 1 }

  -- The step behind a match, when its sequence is written.
  unfoldable pub advance : ℕ → Scan → Scan
  advance len s =
      let ip = s.ip + len in
      let filled = if cfg.fast_path then s.tables else fill_tables 8 (s.ip + 1) ip s.tables in
      record {
        out = s.out;
        anchor = ip;
        ip = ip;
        step_ctr = if cfg.fast_path then 64 else s.step_ctr;
        tables = if ltb ip match_limit then insert filled ip else filled;
      }

  -- One round of the main loop; `none` is a full output.
  unfoldable pub scan_step : ℕ → Scan → Option Scan
  scan_step room s =
      let tables = insert s.tables s.ip in
      let best = search_match tables s.ip (s.tables.head (hash_at s.ip)) in
      if ltb best.len min_match
      then some (skip (record s { tables = tables }))
      else elim (emit_sequence room s.out (slice s.anchor s.ip) best.len best.offset) [
        | none ↦ none
        | some out ↦ some (advance best.len (record s { out = out; tables = tables }))
      ]

  -- The main loop, and the final sequence. The fuel is at least the length of `src`.
  unfoldable pub scan_loop : ℕ → ℕ → Scan → Outcome Error (List ℕ)
  scan_loop zero room s = stuck
  scan_loop (suc fuel) room s =
      let rest : Outcome Error (List ℕ) = elim (scan_step room s) [
        | none ↦ fails too_small
        | some s' ↦ scan_loop fuel room s'
      ] in
      if ltb s.ip match_limit
      then rest
      else or_fail (emit_sequence room s.out (slice s.anchor (length src)) 0 0) too_small

  -- The first position enters `head` alone.
  unfoldable pub scan_start : Tables → Scan
  scan_start t = record {
    out = [];
    anchor = 0;
    ip = 1;
    step_ctr = 64;
    tables = record (reset cfg t) { head = update (reset cfg t).head (hash_at 0) 0 };
  }

  unfoldable pub block_compress : Tables → ℕ → Outcome Error (List ℕ)
  block_compress t room =
      if length src == 0
      then (if ltb room 1 then fails too_small else done (0 ∷ []))
      else if ltb (length src) (min_match + last_match)
      then or_fail (emit_sequence room [] src 0 0) too_small
      else scan_loop (length src) room (scan_start t)
