-- ===== src/Lz4/Scan.antt =====
-- lz4_block_compress as a whole: the loop's invariant, the size of the output, and the round trip.
use orot.Base.{
  ℕ, ◌+◌, ◌-◌, ◌/◌, ◌^◌, ◌≤◌, ◌<◌, ◌≡◌, sym, ◌∙◌, ◌⊎◌, inl, inr, false, List, [], ◌++◌, Option,
  none, some, arith, length, take, drop, ltb, leb, if◌then◌else◌, if-both, All, option-both, subst,
  length-append, length-take, length-drop,
}
use orot.Lz4.Block.{Config, block_compress_bound, emit_sequence, varint_extra_size}
use orot.Lz4.Length.{length-write_varint_extra}
use orot.Lz4.Sequence.{
  extra_bytes, match_bytes, tail_bytes, sequence_bytes, append_if_fits,
  emit_sequence-sequence_bytes,
}
use orot.Lz4.Compress.{
  Tables, Best, Scan, insert, search_match, hash_at, match_limit, slice, skip, advance, scan_step,
  fill_tables,
}
use orot.Lz4.Match.{
  IsByte, IsMatch, IsFound, IsBounded, search_match-IsFound, insert-IsBounded,
  fill_tables-IsBounded,
}
use orot.Lz4.Round.{Decodes, Decodes-match}

-- Room that the output never passes, at a position of the source.
abbrev pub WithinBound : ℕ → ℕ → Type 0
WithinBound size n = size ≤ n + n / 255

length-extra_bytes : (n : ℕ) → length (extra_bytes n) ≡ (if leb 15 n then (n - 15) / 255 + 1 else 0)
unfolding extra_bytes varint_extra_size
length-extra_bytes n = ground (arith, length-write_varint_extra (n - 15))

match_sequence_bound :
    (lits : List ℕ) (match_len offset size anchor : ℕ)
    → 4 ≤ match_len
    → WithinBound size anchor
    → WithinBound
        (size + length (sequence_bytes lits match_len offset))
        (anchor + length lits + match_len)
unfolding sequence_bytes tail_bytes match_bytes
match_sequence_bound lits match_len offset size anchor h le = ground (
  arith,
  length-append (extra_bytes (length lits)) (lits ++ match_bytes match_len offset),
  length-append lits (match_bytes match_len offset),
  length-extra_bytes (length lits),
  length-extra_bytes (match_len - 4),
)

pub last_sequence_bound :
    (lits : List ℕ) (size anchor : ℕ)
    → WithinBound size anchor
    → size + length (sequence_bytes lits 0 0)
      ≤ anchor + length lits + (anchor + length lits) / 255 + 16
unfolding sequence_bytes tail_bytes
last_sequence_bound lits size anchor le = ground (
  arith,
  length-append (extra_bytes (length lits)) (lits ++ []),
  length-append lits [],
  length-extra_bytes (length lits),
)

pub appended :
    (room : ℕ) (out seq : List ℕ) {r : List ℕ}
    → append_if_fits room out seq ≡ some r
    → out ++ seq ≡ r
appended room out seq e = ground arith

pub not_appended :
    (room : ℕ) (out seq : List ℕ)
    → append_if_fits room out seq ≡ none
    → room < length out + length seq
not_appended room out seq e = ground arith

bound_above : (size n m : ℕ) → WithinBound size n → n ≤ m → 0 < m → size ≤ block_compress_bound m
unfolding block_compress_bound
bound_above size n m h le pos = ground arith

module _ (cfg : Config) (src : List ℕ) (bytes : All IsByte src) (small : length src < 2 ^ 31) where
  -- What holds whenever the loop is entered.
  pub record IsScanned (s : Scan) : Type 0 where
    pub decodes : Decodes s.out (take s.anchor src)
    pub anchored : s.anchor ≤ s.ip
    pub inside : s.anchor ≤ length src
    pub size : WithinBound (length s.out) s.anchor
    pub bounded : IsBounded cfg src bytes s.ip s.tables
    pub steps : 64 ≤ s.step_ctr
    pub steps_above : s.step_ctr ≤ 64 + s.ip

  IsBounded-mono :
      (i j : ℕ) (t : Tables) → i ≤ j → IsBounded cfg src bytes i t → IsBounded cfg src bytes j t
  IsBounded-mono i j t le b = record {
    heads = λ h. omega (arith, b.heads h);
    links = λ chained k. omega (arith, b.links chained k);
  }

  -- A round keeps the invariant and moves on.
  pub record IsProgress (from : ℕ) (s : Scan) : Type 0 where
    pub scanned : IsScanned s
    pub further : from < s.ip

  skip-IsProgress : (s : Scan) → s.ip < length src → IsScanned s → IsProgress s.ip (skip cfg src s)
  unfolding skip
  skip-IsProgress s before i =
      if-both (IsProgress s.ip) cfg.fast_path _ _
        (λ _. record {
          scanned = record {
            decodes = i.decodes;
            anchored = omega arith;
            inside = i.inside;
            size = i.size;
            bounded = IsBounded-mono _ _ _ (omega arith) i.bounded;
            steps = omega arith;
            steps_above = omega arith;
          };
          further = omega arith;
        })
        (λ _. record {
          scanned = record {
            decodes = i.decodes;
            anchored = omega arith;
            inside = i.inside;
            size = i.size;
            bounded = IsBounded-mono _ _ _ (omega arith) i.bounded;
            steps = i.steps;
            steps_above = omega arith;
          };
          further = omega arith;
        })

  -- The state behind a written match; its tables are those of `advance`.
  advance-IsProgress :
      (s : Scan) (len : ℕ)
      → 4 ≤ len
      → s.ip + len ≤ length src
      → Decodes s.out (take (s.ip + len) src)
      → WithinBound (length s.out) (s.ip + len)
      → IsBounded cfg src bytes s.ip s.tables
      → 64 ≤ s.step_ctr
      → s.step_ctr ≤ 64 + s.ip
      → IsProgress s.ip (advance cfg src len s)
  unfolding advance
  advance-IsProgress s len long inside decodes size bounded steps above = record {
    scanned = record {
      decodes = decodes;
      anchored = omega arith;
      inside = inside;
      size = size;
      bounded =
          if-both (IsBounded cfg src bytes (s.ip + len)) (ltb (s.ip + len) (match_limit cfg src)) _
            _ (λ _. insert-IsBounded cfg src bytes _ (s.ip + len) (s.ip + len) (omega arith) filled)
            (λ _. filled);
      steps = if-both (λ k. 64 ≤ k) cfg.fast_path _ _ (λ _. omega arith) (λ _. steps);
      steps_above =
          if-both (λ k. k ≤ 64 + (s.ip + len)) cfg.fast_path _ _ (λ _. omega arith)
            (λ _. omega arith);
    };
    further = omega arith;
  }
    where
      later : IsBounded cfg src bytes (s.ip + len) s.tables
      later = IsBounded-mono _ _ _ (omega arith) bounded

      filled : IsBounded cfg src bytes (s.ip + len) (
          if cfg.fast_path
          then s.tables
          else fill_tables cfg src 8 (s.ip + 1) (s.ip + len) s.tables)
      filled =
          if-both (IsBounded cfg src bytes (s.ip + len)) cfg.fast_path _ _ (λ _. later)
            (λ _.
              fill_tables-IsBounded cfg src bytes 8 (s.ip + 1) (s.ip + len) (s.ip + len) s.tables
                (omega arith) later)

  -- A round moves on, or the output is full.
  pub data StepResult (room : ℕ) (s : Scan) : Option Scan → Type 0 where
    full : room < block_compress_bound (length src) → StepResult room s none
    moved : {s' : Scan} → IsProgress s.ip s' → StepResult room s (some s')

  emit_fits :
      (room : ℕ) (s : Scan) (len offset : ℕ)
      → IsScanned s
      → IsMatch src s.ip len offset
      → WithinBound
          (length s.out + length (sequence_bytes (slice cfg src s.anchor s.ip) len offset))
          (s.ip + len)
  emit_fits room s len offset i m =
      let e : s.anchor + length (slice cfg src s.anchor s.ip) + len ≡ s.ip + len = omega (
        arith,
        length-take (s.ip - s.anchor) (drop s.anchor src),
        length-drop s.anchor src,
        m.before_tail,
        i.anchored,
      ) in
      subst (WithinBound _) e (
        match_sequence_bound (slice cfg src s.anchor s.ip) len offset (length s.out) s.anchor m.long
          i.size)

  matched-StepResult :
      (room : ℕ) (s : Scan) (t : Tables) (len offset : ℕ)
      → IsScanned s
      → IsMatch src s.ip len offset
      → IsBounded cfg src bytes s.ip t
      → StepResult room s
          (elim (emit_sequence room s.out (slice cfg src s.anchor s.ip) len offset) [
            | none ↦ none
            | some out ↦ some (advance cfg src len (record s { out = out; tables = t }))
          ])
  matched-StepResult room s t len offset i m bounded =
      option-both (StepResult room s)
        (emit_sequence room s.out (slice cfg src s.anchor s.ip) len offset) none
        (λ out. some (advance cfg src len (record s { out = out; tables = t })))
        (λ e. full (omega (arith, not_appended room s.out seq (sym emitted ∙ e), in_bound)))
        (λ out e. moved (written out (appended room s.out seq (sym emitted ∙ e))))
    where
      seq : List ℕ
      seq = sequence_bytes (slice cfg src s.anchor s.ip) len offset

      emitted :
          emit_sequence room s.out (slice cfg src s.anchor s.ip) len offset
          ≡ append_if_fits room s.out seq
      emitted =
          emit_sequence-sequence_bytes room s.out (slice cfg src s.anchor s.ip) len offset
            (inr m.long)

      in_bound : length s.out + length seq ≤ block_compress_bound (length src)
      in_bound =
          bound_above _ (s.ip + len) (length src) (emit_fits room s len offset i m)
            (omega (arith, m.before_tail)) (omega (arith, m.before_tail))

      written :
          (out : List ℕ)
          → s.out ++ seq ≡ out
          → IsProgress s.ip (advance cfg src len (record s { out = out; tables = t }))
      written out e =
          advance-IsProgress (record s { out = out; tables = t }) len m.long
            (omega (arith, m.before_tail))
            (subst (λ v. Decodes v (take (s.ip + len) src)) e
              (Decodes-match s.out src s.anchor s.ip len offset i.decodes i.anchored m small))
            (subst (λ v. WithinBound (length v) (s.ip + len)) e
              (subst (λ k. WithinBound k (s.ip + len)) (sym (length-append s.out seq))
                (emit_fits room s len offset i m)))
            bounded i.steps i.steps_above

  pub scan_step-StepResult :
      (room : ℕ) (s : Scan)
      → s.ip + 12 < length src
      → IsScanned s
      → StepResult room s (scan_step cfg src room s)
  unfolding scan_step
  scan_step-StepResult room s near i =
      if-both (StepResult room s) (ltb best.len 4) _ _
        (λ _. moved (
          skip-IsProgress (record s { tables = tables }) (omega arith)
            (record {
              decodes = i.decodes;
              anchored = i.anchored;
              inside = i.inside;
              size = i.size;
              bounded = bounded;
              steps = i.steps;
              steps_above = i.steps_above;
            })))
        (λ long.
          matched-StepResult room s tables best.len best.offset i (is_match long (found.found))
            bounded)
    where
      tables : Tables
      tables = insert cfg src s.tables s.ip

      bounded : IsBounded cfg src bytes s.ip tables
      bounded = insert-IsBounded cfg src bytes s.tables s.ip s.ip (omega arith) i.bounded

      best : Best
      best = search_match cfg src tables s.ip (s.tables.head (hash_at cfg src s.ip))

      found : IsFound src s.ip best
      found =
          search_match-IsFound cfg src bytes tables s.ip _ near small bounded (i.bounded.heads _)

      is_match :
          ltb best.len 4 ≡ false
          → (best.len ≡ 0) ⊎ IsMatch src s.ip best.len best.offset
          → IsMatch src s.ip best.len best.offset
      is_match long (inl e) = absurd (ground arith)
      is_match long (inr m) = m
